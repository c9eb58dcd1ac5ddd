-- ===== src/Arch/Vmm/Maps.antt =====
-- The post-condition of the paging code, and the entries that lead from table to table.
use kess_os.Base.{ℕ, ◌^◌, ◌<◌, ◌≡◌}
use kess_os.Base.{some}
use kess_os.Arch.Vmm.{Vmm, Outcome, done, null_table, ◌>>=◌}
use kess_os.Arch.Vmm.Entry.{frame, IsPresent, entry_at}
use kess_os.Arch.Vmm.Invariant.{Owner, pages_left, IsTables, Extends, Extends-trans}

-- The two ways a step can end: the pool ran out, or the tables are extended and `Q` holds.
pub data Maps (pml4 : ℕ) (s : Vmm) (o : Owner) (Q : Vmm → Owner → Type 0) : Outcome → Type 0 where
  ran_out : Maps pml4 s o Q null_table
  mapped :
      (s' : Vmm) (o' : Owner)
      → IsTables pml4 s' o'
      → Extends s o s' o'
      → Q s' o'
      → Maps pml4 s o Q (done s')

pub Maps-widen :
    {pml4 : ℕ} {s t : Vmm} {o o' : Owner} {Q R : Vmm → Owner → Type 0} {r : Outcome}
    → Extends s o t o'
    → ((u : Vmm) (p : Owner) → IsTables pml4 u p → Extends t o' u p → Q u p → R u p)
    → Maps pml4 t o' Q r
    → Maps pml4 s o R r
Maps-widen ext f ran_out = ran_out
Maps-widen ext f (mapped u p inv ext' q) =
    mapped u p inv (Extends-trans ext ext') (f u p inv ext' q)

pub Maps-bind :
    {pml4 : ℕ} {s : Vmm} {o : Owner} {Q R : Vmm → Owner → Type 0} {r : Outcome} (k : Vmm → Outcome)
    → Maps pml4 s o Q r
    → ((s' : Vmm) (o' : Owner)
        → IsTables pml4 s' o'
        → Extends s o s' o'
        → Q s' o'
        → Maps pml4 s' o' R (k s'))
    → Maps pml4 s o R (r >>= k)
Maps-bind k ran_out f = ran_out
Maps-bind k (mapped s' o' inv ext q) f = Maps-widen ext (λ u p i e h. h) (f s' o' inv ext q)

abbrev pub Anything : Vmm → Owner → Type 0
Anything s o = Unit

abbrev pub MapOk : (pml4 fuel : ℕ) → (ℕ → Vmm → Outcome) → Type 0
MapOk pml4 fuel map =
    (logical : ℕ) (s : Vmm) (o : Owner)
    → IsTables pml4 s o
    → logical < 2 ^ 48
    → pages_left s < fuel
    → Maps pml4 s o Anything (map logical s)

-- The entry `i` of table `p` leads to the table at `q`.
pub record Link (p i q : ℕ) (s : Vmm) : Type 0 where
  pub present : IsPresent (entry_at s.ram p i)
  pub target : frame (entry_at s.ram p i) ≡ q

pub Link-Extends :
    {s s' : Vmm} {o o' : Owner} (p l v i q : ℕ)
    → Extends s o s' o'
    → o p ≡ some (l, v)
    → i < 512
    → Link p i q s
    → Link p i q s'
Link-Extends p l v i q ext table slot link =
    let same = ext.keeps_entry p l v i table slot link.present in
    record { present = rw same link.present; target = rw same link.target }
