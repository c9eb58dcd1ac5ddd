-- ===== src/Firmware/Acpi/Tables.antt =====
-- kernel/src/firmware/acpi/tables.h: the tables of the firmware. All of them are packed; a flexible
-- array is a list.
use kess_os.Base.{ℕ, List}

pub record AcpiRsdp : Type 0 where
  pub signature : List ℕ
  pub checksum : ℕ
  pub oemid : List ℕ
  pub rev : ℕ
  pub rsdtaddr : ℕ

pub record AcpiRsdp2 : Type 0 where
  pub rsdp1 : AcpiRsdp
  pub length : ℕ
  pub xsdt_addr : ℕ
  pub extended_checksum : ℕ
  pub reserved : List ℕ

pub record AcpiXsdp : Type 0 where
  pub signature : List ℕ
  pub checksum : ℕ
  pub oem : List ℕ
  pub rev : ℕ
  pub rsdt : ℕ
  pub length : ℕ
  pub xsdt : ℕ
  pub extended_checksum : ℕ

pub record AcpiHeader : Type 0 where
  pub signature : List ℕ
  pub length : ℕ
  pub revision : ℕ
  pub checksum : ℕ
  pub oem : List ℕ
  pub oem_table : List ℕ
  pub oem_revision : ℕ
  pub creator_id : ℕ
  pub creator_revision : ℕ

pub record AcpiRsdt : Type 0 where
  pub header : AcpiHeader
  pub tables : List ℕ

pub record AcpiXsdt : Type 0 where
  pub header : AcpiHeader
  pub tables : List ℕ

pub record AcpiGas : Type 0 where
  pub address_space : ℕ
  pub bit_width : ℕ
  pub bit_offset : ℕ
  pub access_size : ℕ
  pub base : ℕ

pub record AcpiFadt : Type 0 where
  pub header : AcpiHeader
  pub firmware_control : ℕ
  pub dsdt : ℕ
  pub reserved : ℕ
  pub profile : ℕ
  pub sci_irq : ℕ
  pub smi_command_port : ℕ
  pub acpi_enable : ℕ
  pub acpi_disable : ℕ
  pub s4bios_req : ℕ
  pub pstate_control : ℕ
  pub pm1a_event_block : ℕ
  pub pm1b_event_block : ℕ
  pub pm1a_control_block : ℕ
  pub pm1b_control_block : ℕ
  pub pm2_control_block : ℕ
  pub pm_timer_block : ℕ
  pub gpe0_block : ℕ
  pub gpe1_block : ℕ
  pub pm1_event_length : ℕ
  pub pm1_control_length : ℕ
  pub pm2_control_length : ℕ
  pub pm_timer_length : ℕ
  pub gpe0_length : ℕ
  pub gpe1_length : ℕ
  pub gpe1_base : ℕ
  pub cstate_control : ℕ
  pub worst_c2_latency : ℕ
  pub worst_c3_latency : ℕ
  pub flush_size : ℕ
  pub flush_stride : ℕ
  pub duty_offset : ℕ
  pub duty_width : ℕ
  pub day_alarm : ℕ
  pub month_alarm : ℕ
  pub century : ℕ
  pub iapc_boot_flags : ℕ
  pub reserved2 : ℕ
  pub flags : ℕ
  pub reset_register : AcpiGas
  pub reset_command : ℕ
  pub arm_boot_flags : ℕ
  pub minor_version : ℕ
  pub x_firmware_control : ℕ
  pub x_dsdt : ℕ
  pub x_pm1a_event_block : AcpiGas
  pub x_pm1b_event_block : AcpiGas
  pub x_pm1a_control_block : AcpiGas
  pub x_pm1b_control_block : AcpiGas
  pub x_pm2_control_block : AcpiGas
  pub x_pm_timer_block : AcpiGas
  pub x_gpe0_block : AcpiGas
  pub x_gpe1_block : AcpiGas

pub record AcpiEcdt : Type 0 where
  pub header : AcpiHeader
  pub ec_control : AcpiGas
  pub ec_data : AcpiGas
  pub uid : ℕ
  pub gpe_bit : ℕ
  pub ec_id : List ℕ

pub record AcpiAml : Type 0 where
  pub header : AcpiHeader
  pub payload : List ℕ

pub record AcpiMadt : Type 0 where
  pub header : AcpiHeader
  pub lapic_addr : ℕ
  pub flags : ℕ
