-- ===== src/Arch/MemoryMap.antt =====
-- kernel/src/arch/memory/memory.h and impl/memory.c: the firmware's memory map.
-- A descriptor is read from memory at its address, with the offsets that x86-64 gives its fields.
pub mod Laws
mod Tests
use kess_os.Base.{ℕ, zero, suc, ◌+◌, ◌*◌, ◌/◌, ◌==◌, Option, none, some, if◌then◌else◌, u64}
use kess_os.Base.{List, [], ◌∷◌}
use Prim.Native.String.{String}
use kess_os.Ram.{Ram, load32, load64}

abbrev pub page_size : ℕ
page_size = 4096

pub data MemType : Type 0 where
  mmap_reserved mmap_efi_loader_code mmap_efi_loader_data mmap_efi_bootservices_code : MemType
  mmap_efi_bootservices_data mmap_efi_runtime_services_code : MemType
  mmap_efi_runtime_services_data mmap_usable_memory mmap_unusable_memory : MemType
  mmap_acpi_reclaim_memory mmap_acpi_memory_nvs mmap_memory_mapped_io : MemType
  mmap_memory_mapped_io_port_space mmap_efi_pal_code : MemType

-- The value of the enumerator.
unfoldable pub mem_type_code : MemType → ℕ
mem_type_code mmap_reserved = 0
mem_type_code mmap_efi_loader_code = 1
mem_type_code mmap_efi_loader_data = 2
mem_type_code mmap_efi_bootservices_code = 3
mem_type_code mmap_efi_bootservices_data = 4
mem_type_code mmap_efi_runtime_services_code = 5
mem_type_code mmap_efi_runtime_services_data = 6
mem_type_code mmap_usable_memory = 7
mem_type_code mmap_unusable_memory = 8
mem_type_code mmap_acpi_reclaim_memory = 9
mem_type_code mmap_acpi_memory_nvs = 10
mem_type_code mmap_memory_mapped_io = 11
mem_type_code mmap_memory_mapped_io_port_space = 12
mem_type_code mmap_efi_pal_code = 13

-- `MSEGMENTS`.
abbrev pub msegments : List String
msegments =
    "EfiReservedMemoryType" ∷ "EfiLoaderCode" ∷ "EfiLoaderData" ∷ "EfiBootServicesCode"
    ∷ "EfiBootServicesData" ∷ "EfiRuntimeServicesCode" ∷ "EfiRuntimeServicesData"
    ∷ "EfiConventionalMemory" ∷ "EfiUnusableMemory" ∷ "EfiACPIReclaimMemory" ∷ "EfiACPIMemoryNVS"
    ∷ "EfiMemoryMappedIO" ∷ "EfiMemoryMappedIOPortSpace" ∷ "EfiPalCode" ∷ []

pub record Memdesc : Type 0 where
  pub type : ℕ
  pub phys_addr : ℕ
  pub virt_addr : ℕ
  pub n_pages : ℕ
  pub attr : ℕ

pub record Meminfo : Type 0 where
  pub m_map : ℕ
  pub m_size : ℕ
  pub m_descriptor_size : ℕ

-- `*(memdesc_t*)p`.
unfoldable pub read_memdesc : Ram → ℕ → Memdesc
read_memdesc m p = record {
  type = load32 m p;
  phys_addr = load64 m (p + 8);
  virt_addr = load64 m (p + 16);
  n_pages = load64 m (p + 24);
  attr = load64 m (p + 32);
}

-- The loop of `getMemSize` at `entry`, with `left` rounds to go.
unfoldable pub mem_size_loop : Ram → (m_map m_desc_size left entry mem_size_bytes : ℕ) → ℕ
mem_size_loop m m_map m_desc_size zero entry mem_size_bytes = mem_size_bytes
mem_size_loop m m_map m_desc_size (suc left) entry mem_size_bytes =
    mem_size_loop m m_map m_desc_size left (entry + 1)
      (u64 (mem_size_bytes + load64 m (m_map + (entry + m_desc_size) + 24) * 4096))

unfoldable pub get_mem_size : Ram → (m_map m_entry_count m_desc_size : ℕ) → ℕ
unfolding mem_size_loop
get_mem_size m m_map m_entry_count m_desc_size = mem_size_loop m m_map m_desc_size m_entry_count 0 0

-- `none` is the processor's divide error.
unfoldable pub get_mmap_entries : Meminfo → Option ℕ
get_mmap_entries meminfo =
    if meminfo.m_descriptor_size == 0
    then none
    else some (meminfo.m_size / meminfo.m_descriptor_size)

unfoldable pub mmap_iterator_helper : ℕ → Meminfo → ℕ
mmap_iterator_helper i meminfo = u64 (meminfo.m_map + i * meminfo.m_descriptor_size)
