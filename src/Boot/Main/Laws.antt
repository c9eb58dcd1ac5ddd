-- ===== src/Boot/Main/Laws.antt =====
-- A kernel that can be booted is booted.
use kess_os.Base.{ℕ, zero, suc, ◌+◌, ◌*◌, ◌≤◌, ◌<◌, ◌≡◌, refl, arith, ◌∙◌, ap}
use kess_os.Base.{◌==◌, Bool, true, false, if◌then◌else◌, List, [], ◌∷◌, ◌++◌, some}
use native.Mathlib.Nat.{add-zero, zero-add}
use kess_os.Ram.{Ram, load, load64}
use kess_os.Drivers.Video.{Framebuffer, Psf1Font}
use kess_os.Boot.Elf.{load_segments}
use kess_os.Boot.Elf.Segments.{Outside, Holds, load_segments-loads}
use kess_os.Boot.Font.{font_header_bad, glyph_buffer_size, load_font}
use kess_os.Boot.Menu.{Menu, first_menu, menu_loop, boot_clear_screen}
use kess_os.Boot.Menu.Laws.{NoRight, menu_loop-leaves}
use kess_os.Boot.Rsdp.Laws.{rsdp_search-Hit}
use kess_os.Boot.Main.{
  load_file, Firmware, Entry, Booted, entered, draw_events, read_header, phentsize, phnum,
  read_prog_headers, load_kernel, enter_kernel, run_menu, efi_main,
}
use kess_os.Boot.Main.Frame.{clear-outside, draw_events-outside}
use kess_os.Boot.Main.Bootable.{program_header, IsKept, IsBootable, IsEntered}

load-moved :
    (n : ℕ) (m r : Ram) (a b : ℕ)
    → ((j : ℕ) → j < n → m (a + j) ≡ r (b + j))
    → load n m a ≡ load n r b
unfolding load
load-moved zero m r a b h = refl
load-moved (suc n) m r a b h =
    let here : m a ≡ r b = rw (add-zero a, add-zero b) at (h 0 (omega arith)) in
    let rest = load-moved n m r (a + 1) (b + 1) (λ j lt. next j (h (j + 1) (omega arith))) in
    rw (here, rest) refl
  where
    next : (j : ℕ) → m (a + (j + 1)) ≡ r (b + (j + 1)) → m (a + 1 + j) ≡ r (b + 1 + j)
    next j e =
        let left : a + 1 + j ≡ a + (j + 1) = omega arith in
        let right : b + 1 + j ≡ b + (j + 1) = omega arith in rw (left, right) e

module _ (fw : Firmware) (file font_file : ℕ → ℕ) (size font_size : ℕ) (lfb : Framebuffer) (m : Ram)
    (ok : IsBootable fw file font_file size font_size lfb m) where
  abbrev m1 : Ram
  m1 = read_header fw m

  -- The loop over the program headers is made for each of them.
  load_kernel-segments :
      load_kernel fw m1
      ≡ load_segments fw.read_kernel
          (phentsize fw m1)
          (phnum fw m1)
          fw.prog_headers
          (read_prog_headers fw m1)
  unfolding load_kernel
  load_kernel-segments =
      let test : (phentsize fw m1 == 0) ≡ false = ground (arith, ok.loadable.wide) in rw test refl

  segments-loaded :
      let r = load_kernel fw m1 in
      ((k : ℕ)
        → k < phnum fw m1
        → (program_header fw m k).type ≡ 1
        → Holds file r (program_header fw m k))
      × ((x : ℕ)
          → ((k : ℕ)
              → k < phnum fw m1
              → (program_header fw m k).type ≡ 1
              → Outside (program_header fw m k) x)
          → r x ≡ read_prog_headers fw m1 x)
  segments-loaded = rw load_kernel-segments (
      load_segments-loads file size fw.read_kernel (read_prog_headers fw m1) fw.prog_headers
        (phentsize fw m1) (phnum fw m1) ok.kernel ok.loadable)

  -- The header is as it was read.
  header-kept : (d : ℕ) → d < 64 → load_kernel fw m1 (fw.header + d) ≡ file d
  unfolding read_prog_headers read_header
  header-kept d h =
      let (kept, off_table, off_segments) = ok.header_kept d h in
      segments-loaded.1 (fw.header + d) off_segments
      ∙ ok.kernel.keeps (load64 m1 (fw.header + 32)) (phnum fw m1 * phentsize fw m1) fw.prog_headers
          m1 (fw.header + d) ok.whole_table off_table
      ∙ ok.kernel.copies 0 64 fw.header m d ok.whole_header h
      ∙ ap file (zero-add d)

  -- The font that `load_font` returns.
  font-loaded :
      (r : Ram) (opens : Bool)
      → opens ≡ true
      → (font : Psf1Font) × (load_font fw.read_font fw.font_header fw.glyphs opens r
          ≡ some (
            font,
            fw.read_font 4
                (glyph_buffer_size (font_file 2) (font_file 3))
                fw.glyphs
                (fw.read_font 0 4 fw.font_header r),
          ))
        × (font.glyph_buffer ≡ fw.glyphs)
  unfolding load_font font_header_bad
  font-loaded r opens there =
      let read = fw.read_font 0 4 fw.font_header r in
      let short : 0 + 4 ≤ font_size = omega (arith, ok.whole_font) in
      let byte : (j : ℕ) → j < 4 → read (fw.font_header + j) ≡ font_file j =
        λ j h. ok.font.copies 0 4 fw.font_header r j short h ∙ ap font_file (zero-add j) in
      let b0 : read fw.font_header ≡ 0x36 =
        rw (add-zero fw.font_header) at (byte 0 (omega arith)) ∙ ok.magic.0 in
      let b1 : read (fw.font_header + 1) ≡ 0x04 = byte 1 (omega arith) ∙ ok.magic.1 in
      let b2 = byte 2 (omega arith) in
      let b3 = byte 3 (omega arith) in rw (there, b0, b1, b2, b3) (_, refl, refl)

  module _ (lfb_font : Psf1Font) (menu : Menu) (r : Ram) where
    -- What the font leaves, the menu and the memory map leave too.
    entry-keeps :
        (x : ℕ) → IsKept fw font_file lfb x → (enter_kernel fw lfb lfb_font menu r).ram x ≡ r x
    unfolding enter_kernel
    entry-keeps x (off_header, off_glyphs, off_screen, off_map) =
        let drawn = draw_events lfb lfb_font menu.events r in
        ok.map (boot_clear_screen lfb 0 drawn) x off_map
        ∙ clear-outside lfb x off_screen ok.screen 0 drawn
        ∙ draw_events-outside lfb x off_screen ok.screen lfb_font menu.events r

  font-keeps :
      (x : ℕ)
      → IsKept fw font_file lfb x
      → (r : Ram)
      → fw.read_font 4
          (glyph_buffer_size (font_file 2) (font_file 3))
          fw.glyphs
          (fw.read_font 0 4 fw.font_header r)
          x
        ≡ r x
  font-keeps x (off_header, off_glyphs, off_screen, off_map) r =
      let short : 0 + 4 ≤ font_size = omega (arith, ok.whole_font) in
      ok.font.keeps 4 _ fw.glyphs (fw.read_font 0 4 fw.font_header r) x ok.whole_font off_glyphs
      ∙ ok.font.keeps 0 4 fw.font_header r x short off_header

  -- Of a kernel that is entered from the loaded memory with this font.
  enter_kernel-IsEntered :
      (font : Psf1Font) (menu : Menu)
      → font.glyph_buffer ≡ fw.glyphs
      → IsEntered fw file lfb m (
          enter_kernel fw lfb font menu (
            fw.read_font 4
              (glyph_buffer_size (font_file 2) (font_file 3))
              fw.glyphs
              (fw.read_font 0 4 fw.font_header (load_kernel fw m1))))
  unfolding enter_kernel
  enter_kernel-IsEntered font menu glyphs =
      let r =
        fw.read_font 4 (glyph_buffer_size (font_file 2) (font_file 3)) fw.glyphs
          (fw.read_font 0 4 fw.font_header (load_kernel fw m1)) in
      let e = enter_kernel fw lfb font menu r in
      let kept : (x : ℕ) → IsKept fw font_file lfb x → e.ram x ≡ load_kernel fw m1 x =
        λ x k. entry-keeps font menu r x k ∙ font-keeps x k (load_kernel fw m1) in
      record {
        entry_point = load-moved 8 e.ram file (fw.header + 24) 24 λ j h.
            let same : fw.header + 24 + j ≡ fw.header + (24 + j) = omega arith in
            rw same (
              kept (fw.header + (24 + j)) (ok.header_kept (24 + j) (omega arith)).0
              ∙ header-kept (24 + j) (omega arith));
        segments = λ k h is_load j hj.
            kept ((program_header fw m k).paddr + j) (ok.segments_kept k j h is_load hj)
            ∙ segments-loaded.0 k h is_load j hj;
        screen = refl;
        glyphs = glyphs;
        map = refl;
        described = (_, refl);
        root = rsdp_search-Hit fw.compare_guid fw.vendor_table fw.rsd_ptr e.ram fw.table_entries;
      }

load_file-success : (status : ℕ) → status ≡ 0 → load_file status ≡ true
unfolding load_file
load_file-success status e = rw e refl

both_tests :
    (opens bad : Bool) (x y z : Booted)
    → opens ≡ true
    → bad ≡ false
    → (if opens then if bad then x else y else z) ≡ y
both_tests opens bad x y z e e' = rw (e, e') refl

-- A bootable kernel is booted: whatever keys but the right arrow are pressed, once the up arrow
-- and then the right arrow follow them `efi_main` enters the kernel. It does so at the entry point of the kernel's
-- file, with each segment of type `PT_LOAD` in memory as the file has it, in spite of the font, the
-- screens and the memory map that were written after it; with the firmware's frame buffer, the
-- glyphs and the memory map; and with a root pointer that is NULL or a table that was found.
pub efi_main-enters :
    (fw : Firmware) (file font_file : ℕ → ℕ) (size font_size : ℕ) (lfb : Framebuffer) (m : Ram)
    (keys : List ℕ)
    → IsBootable fw file font_file size font_size lfb m
    → fw.keys ≡ keys ++ 1 ∷ 3 ∷ []
    → NoRight keys
    → (e : Entry) × (efi_main fw m ≡ entered e) × IsEntered fw file lfb m e
unfolding efi_main run_menu
efi_main-enters fw file font_file size font_size lfb m keys ok pressed none_right =
    let (font, loaded, glyphs) =
      font-loaded fw file font_file size font_size lfb m ok (load_kernel fw (read_header fw m))
        (load_file fw.open_font) (load_file-success fw.open_font ok.font_opens) in
    let (menu, ended) = menu_loop-leaves keys none_right in
    let in_menu = ap (λ k. menu_loop k first_menu) pressed ∙ ended in
    let e = enter_kernel fw lfb font menu (
      fw.read_font 4 (glyph_buffer_size (font_file 2) (font_file 3)) fw.glyphs
        (fw.read_font 0 4 fw.font_header (load_kernel fw (read_header fw m)))) in
    (
      e,
      both_tests _ _ _ _ _ (load_file-success fw.open_kernel ok.kernel_opens) ok.accepted
          ∙ rw (run_menu, ok.graphics, loaded, in_menu) refl,
      enter_kernel-IsEntered fw file font_file size font_size lfb m ok font menu glyphs,
    )
