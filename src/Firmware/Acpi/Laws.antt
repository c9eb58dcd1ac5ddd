-- ===== src/Firmware/Acpi/Laws.antt =====
-- What `acpi_init` accepts.
use kess_os.Base.{ℕ, zero, suc, ◌+◌, ◌%◌, ◌<◌, ◌≡◌, ◌≢◌, ◌⊎◌, ◌↔◌, inl, inr, refl, arith}
use kess_os.Base.{
  true, false, ◌==◌, Option, none, some, ℕ_discrete, ◌∙◌, sym, List, [], ◌∷◌, length,
}
use kess_os.Ram.{Ram, load32}
use kess_os.Util.Text.{strncmp, strncmp_loop}
use kess_os.Util.Text.Laws.{Same, Same-head, Same-tail, Same-cons, strncmp-Same}
use kess_os.Firmware.Acpi.{
  header_length, table_entry, sum_loop, locate_loop, locate_fadt, is_fadt_valid, check_fadt,
  acpi_init, count_entries,
}

-- The sum of `n` bytes from `p`.
abbrev pub sum_bytes : Ram → (p n : ℕ) → ℕ
sum_bytes m p zero = 0
sum_bytes m p (suc n) = m p + sum_bytes m (p + 1) n

sum_loop-bytes :
    (m : Ram) (p left i sum : ℕ)
    → sum < 256
    → sum_loop m p left i sum ≡ (sum + sum_bytes m (p + i) left) % 256
unfolding sum_loop
sum_loop-bytes m p zero i sum h = omega arith
sum_loop-bytes m p (suc left) i sum h =
    let shift : p + (i + 1) ≡ p + i + 1 = omega arith in
    let rest = sum_loop-bytes m p left (i + 1) ((sum + m (p + i)) % 256) (omega arith) in
    rest ∙ rw shift (omega arith)

-- The bytes from `p` on start with `cs`.
abbrev pub Starts : Ram → (p : ℕ) → (cs : List ℕ) → Type 0
Starts m p [] = Unit
Starts m p (c ∷ cs) = (m p ≡ c) × Starts m (p + 1) cs

abbrev pub facp_text : List ℕ
facp_text = b'F' ∷ b'A' ∷ b'C' ∷ b'P' ∷ []

-- The pointer number `i` of the RSDT is NULL or leads to a table whose first bytes are "FACP".
abbrev pub Found : Ram → (rsdt i : ℕ) → Type 0
Found m rsdt i = (table_entry m rsdt i ≡ 0) ⊎ Starts m (table_entry m rsdt i) facp_text

Starts-Same :
    (m : Ram) (p q : ℕ) (cs : List ℕ) → Starts m p cs → Starts m q cs → Same m p q (length cs)
Starts-Same m p q [] h k = λ j b. absurd (omega arith)
Starts-Same m p q (c ∷ cs) h k =
    Same-cons m p q (length cs) (h.0 ∙ sym k.0) (Starts-Same m (p + 1) (q + 1) cs h.1 k.1)

Same-Starts :
    (m : Ram) (p q : ℕ) (cs : List ℕ) → Same m p q (length cs) → Starts m q cs → Starts m p cs
Same-Starts m p q [] s k = tt
Same-Starts m p q (c ∷ cs) s k = (
  Same-head m p q (length cs) s ∙ k.0,
  Same-Starts m (p + 1) (q + 1) cs (Same-tail m p q (length cs) s) k.1,
)

strncmp-null : (m : Ram) (q n : ℕ) → strncmp m 0 q n ≡ 1
unfolding strncmp strncmp_loop
strncmp-null m q zero = refl
strncmp-null m q (suc n) = refl

-- What the code's test of a pointer means, where the literal "FACP" is at `facp`.
strncmp-facp :
    (facp : ℕ) (m : Ram) (p : ℕ)
    → 0 < facp
    → Starts m facp facp_text
    → ((strncmp m p facp 4 ≢ 0) ↔ ((p ≡ 0) ⊎ Starts m p facp_text))
strncmp-facp facp m p there literal = elim (ℕ_discrete p 0) [
  | yes null ↦ rw null ((λ _. inl refl), λ _ e. absurd (omega (arith, strncmp-null m facp 4, e)))
  | no real ↦
      let ((agree, back), bit) = strncmp-Same m p facp 4 (omega arith) there in
      (
        (λ nonzero. elim bit [
          | inl none_agrees ↦ absurd (nonzero none_agrees)
          | inr one ↦ inr (Same-Starts m p facp facp_text (agree one) literal)
        ]),
        (λ named e. elim named [
          | inl null ↦ absurd (real null)
          | inr named_so ↦
              let one = back (Starts-Same m p facp facp_text named_so literal) in
              absurd (omega (arith, one, e))
        ]),
      )
]

-- The table number `i` is the first of `n` that is taken for the FADT.
pub record First (m : Ram) (rsdt n i : ℕ) : Type 0 where
  pub bound : i < n
  pub here : Found m rsdt i
  pub before : (j : ℕ) → j < i → ¬ Found m rsdt j

pub data Located (m : Ram) (rsdt n : ℕ) : Option ℕ → Type 0 where
  missing : ((j : ℕ) → j < n → ¬ Found m rsdt j) → Located m rsdt n none
  located : (i : ℕ) → First m rsdt n i → Located m rsdt n (some (table_entry m rsdt i))

locate_loop-Located :
    (facp : ℕ) (m : Ram) (rsdt left i n : ℕ)
    → 0 < facp
    → Starts m facp facp_text
    → i + left ≡ n
    → ((j : ℕ) → j < i → ¬ Found m rsdt j)
    → Located m rsdt n (locate_loop facp m rsdt left i)
unfolding locate_loop
locate_loop-Located facp m rsdt zero i n there literal e none_before =
    missing (λ j h. none_before j (omega arith))
locate_loop-Located facp m rsdt (suc left) i n there literal e none_before =
    elim (ℕ_discrete (strncmp m (table_entry m rsdt i) facp 4) 0) [
      | yes differs ↦
          let test : (strncmp m (table_entry m rsdt i) facp 4 == 0) ≡ true = ground arith in
          rw test (
            locate_loop-Located facp m rsdt left (i + 1) n there literal (omega arith) (λ j h found.
              elim (ℕ_discrete j i) [
                | yes same ↦
                    (strncmp-facp facp m (table_entry m rsdt i) there literal).1 (rw same at found)
                      differs
                | no other ↦ none_before j (omega arith) found
              ]))
      | no same ↦
          let test : (strncmp m (table_entry m rsdt i) facp 4 == 0) ≡ false = ground arith in
          rw test (
            located i (record {
              bound = omega arith;
              here = (strncmp-facp facp m (table_entry m rsdt i) there literal).0 same;
              before = none_before;
            }))
    ]

is_fadt_valid-sum :
    (m : Ram) (fadt : ℕ)
    → is_fadt_valid m fadt ≡ (sum_bytes m fadt (header_length m fadt) % 256 == 0)
unfolding is_fadt_valid
is_fadt_valid-sum m fadt =
    let n = header_length m fadt in
    let start : fadt + 0 ≡ fadt = omega arith in
    let total : sum_loop m fadt n 0 0 % 256 ≡ sum_bytes m fadt n % 256 =
      omega (arith, rw start at (sum_loop-bytes m fadt n 0 0 (omega arith))) in
    rw total refl

-- With the literal "FACP" at an address other than 0, `acpi_init` takes the first pointer of the
-- RSDT that is NULL or leads to a table whose first four bytes are "FACP". It goes on exactly when
-- there is one and what it points to sums to 0 modulo 256 over its whole length; that becomes the
-- FADT. Otherwise it halts: no pointer is like this, or the first has a wrong checksum.
pub acpi_init-finds :
    (facp : ℕ) (m : Ram) (rsdp : ℕ)
    → 0 < facp
    → Starts m facp facp_text
    → let rsdt = load32 m (rsdp + 16) in
      let n = count_entries m rsdt in
      ((acpi_init facp m rsdp ≡ none) × ((j : ℕ) → j < n → ¬ Found m rsdt j))
      ⊎ ((i : ℕ) × First m rsdt n i
          × (let fadt = table_entry m rsdt i in
              let sum = sum_bytes m fadt (header_length m fadt) % 256 in
              ((sum ≡ 0)
                × (acpi_init facp m rsdp
                    ≡ some (record { rsdt = rsdt; rsdt_entries = n; fadt = fadt })))
              ⊎ ((sum ≢ 0) × (acpi_init facp m rsdp ≡ none))))
unfolding acpi_init locate_fadt check_fadt
acpi_init-finds facp m rsdp there literal = outcomes (
    locate_loop-Located facp m rsdt n 0 n there literal (omega arith) (λ j h. absurd (omega arith)))
  where
    rsdt : ℕ
    rsdt = load32 m (rsdp + 16)

    n : ℕ
    n = count_entries m rsdt

    outcomes :
        {r : Option ℕ}
        → Located m rsdt n r
        → ((check_fadt m rsdt n r ≡ none) × ((j : ℕ) → j < n → ¬ Found m rsdt j))
          ⊎ ((i : ℕ) × First m rsdt n i
              × (let fadt = table_entry m rsdt i in
                  let sum = sum_bytes m fadt (header_length m fadt) % 256 in
                  ((sum ≡ 0)
                    × (check_fadt m rsdt n r
                        ≡ some (record { rsdt = rsdt; rsdt_entries = n; fadt = fadt })))
                  ⊎ ((sum ≢ 0) × (check_fadt m rsdt n r ≡ none))))
    outcomes (missing absent) = inl (refl, absent)
    outcomes (located i first) = inr (i, first, tested i)
      where
        tested :
            (i : ℕ)
            → let fadt = table_entry m rsdt i in
              let sum = sum_bytes m fadt (header_length m fadt) % 256 in
              ((sum ≡ 0)
                × (check_fadt m rsdt n (some fadt)
                    ≡ some (record { rsdt = rsdt; rsdt_entries = n; fadt = fadt })))
              ⊎ ((sum ≢ 0) × (check_fadt m rsdt n (some fadt) ≡ none))
        tested i =
            let fadt = table_entry m rsdt i in
            let sum = sum_bytes m fadt (header_length m fadt) % 256 in
            elim (ℕ_discrete sum 0) [
              | yes e ↦
                  let test : (sum == 0) ≡ true = ground arith in
                  inl (e, rw (is_fadt_valid-sum m fadt, test) refl)
              | no ne ↦
                  let test : (sum == 0) ≡ false = ground arith in
                  inr (ne, rw (is_fadt_valid-sum m fadt, test) refl)
            ]
