-- ===== src/Kernel/Start/Gates.antt =====
-- Several calls of `set_idt_vec` one after the other.
use kess_os.Base.{ℕ, ◌<◌, ◌≡◌, ◌≢◌, ◌^◌, List, [], ◌∷◌, length, get_elem?, some, refl, ◌∙◌}
use kess_os.Interrupts.Idt.{Idt, IdtVector, set_idt_vec}
use kess_os.Interrupts.Idt.Laws.{entry_point, set_idt_vec-gate}
use kess_os.Kernel.Start.{Handler, set_idt_vecs}

-- The vector has a gate of these flags to the handler.
abbrev pub HasGate : Idt → Handler → Type 0
HasGate s (vec, isr, flags) =
    (g : IdtVector) × (get_elem? s.idt vec ≡ some g) × (entry_point g ≡ isr) × (g.attr ≡ flags)

abbrev pub All : (Handler → Type 0) → List Handler → Type 0
All P [] = Unit
All P (x ∷ xs) = P x × All P xs

abbrev pub IsHandler : Handler → Type 0
IsHandler (vec, isr, flags) = (vec < 256) × (isr < 2 ^ 64) × (flags < 256)

-- No two calls are for one vector.
abbrev pub AreDistinct : List Handler → Type 0
AreDistinct [] = Unit
AreDistinct (x ∷ xs) = All (λ y. y.0 ≢ x.0) xs × AreDistinct xs

pub set_idt_vecs-keeps :
    (calls : List Handler) (s : Idt) (v : ℕ)
    → All IsHandler calls
    → All (λ y. y.0 ≢ v) calls
    → length s.idt ≡ 256
    → (get_elem? (set_idt_vecs calls s).idt v ≡ get_elem? s.idt v)
      × (length (set_idt_vecs calls s).idt ≡ 256)
unfolding set_idt_vecs
set_idt_vecs-keeps [] s v ok apart len = (refl, len)
set_idt_vecs-keeps ((vec, isr, flags) ∷ calls) s v ok apart len =
    let one = set_idt_vec-gate vec isr flags s ok.0.0 ok.0.1 ok.0.2 len in
    let rest = set_idt_vecs-keeps calls (set_idt_vec vec isr flags s) v ok.1 apart.1 one.2 in
    (rest.0 ∙ one.1 v apart.0, rest.1)

pub set_idt_vecs-gates :
    (calls : List Handler) (s : Idt)
    → All IsHandler calls
    → AreDistinct calls
    → length s.idt ≡ 256
    → All (HasGate (set_idt_vecs calls s)) calls
unfolding set_idt_vecs
set_idt_vecs-gates [] s ok distinct len = tt
set_idt_vecs-gates ((vec, isr, flags) ∷ calls) s ok distinct len =
    let one = set_idt_vec-gate vec isr flags s ok.0.0 ok.0.1 ok.0.2 len in
    let (g, found, entry, attr, cs, ist) = one.0 in
    let kept = set_idt_vecs-keeps calls (set_idt_vec vec isr flags s) vec ok.1 distinct.0 one.2 in
    (
      (g, kept.0 ∙ found, entry, attr),
      set_idt_vecs-gates calls (set_idt_vec vec isr flags s) ok.1 distinct.1 one.2,
    )

-- Gates stay when other vectors are set.
pub HasGate-set_idt_vecs :
    (old calls : List Handler) (s : Idt)
    → All (HasGate s) old
    → All IsHandler calls
    → All (λ x. All (λ y. y.0 ≢ x.0) calls) old
    → length s.idt ≡ 256
    → All (HasGate (set_idt_vecs calls s)) old
HasGate-set_idt_vecs [] calls s gates ok apart len = tt
HasGate-set_idt_vecs ((vec, isr, flags) ∷ old) calls s gates ok apart len =
    let (g, found, entry, attr) = gates.0 in
    let kept = set_idt_vecs-keeps calls s vec ok apart.0 len in
    ((g, kept.0 ∙ found, entry, attr), HasGate-set_idt_vecs old calls s gates.1 ok apart.1 len)

pub set_idt_vecs-idtr : (calls : List Handler) (s : Idt) → (set_idt_vecs calls s).idtr ≡ s.idtr
unfolding set_idt_vecs set_idt_vec
set_idt_vecs-idtr [] s = refl
set_idt_vecs-idtr ((vec, isr, flags) ∷ calls) s =
    set_idt_vecs-idtr calls (set_idt_vec vec isr flags s)
