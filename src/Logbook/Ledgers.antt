-- ===== src/Logbook/Ledgers.antt =====
-- The ledgers of a logbook/book.py over any sequence of calls: their rows, and the tally of them.
use auto_weaver.Prelude.{
  ℕ, ◌+◌, ◌≤◌, String, ◌≡◌, refl, ap, ◌∙◌, Option, none, some, List, [], ◌∷◌, arith, length, ◌==◌,
  string_eq, eq_iff, if◌then◌else◌, inl, inr, Bool-cases,
}
use auto_weaver.Dict.{Dict, get, put, get-put}
use auto_weaver.Logbook.Book.{Row, Scribe, Logbook, kinds_of, total, count_of, put_scribe, lines_of}

abbrev pub seq_at : {F : Type 0} → Option (Scribe F) → ℕ
seq_at none = 0
seq_at (some s) = s.seq

pub total-put :
    (d : Dict String ℕ) (k : String) → total (put d k (count_of (get d k) + 1)) ≡ total d + 1
unfolding put get
total-put [] k = refl
total-put ((j, n) ∷ d) k = elim (Bool-cases (j == k)) [
  | inl e ↦ rw e (omega arith)
  | inr e ↦ rw e (omega (arith, total-put d k))
]

-- one more for a ledger
abbrev pub plus_at : String → (String → ℕ) → String → ℕ
plus_at ledger p l = if ledger == l then p l + 1 else p l

module _ {F : Type 0} where
  abbrev pub seq_of : Logbook F → String → ℕ
  seq_of b ledger = seq_at (get b.scribes ledger)

  abbrev pub lines : Logbook F → String → List (Row F)
  lines b ledger = lines_of (get b.files ledger)

  abbrev pub kinds : Logbook F → String → Dict String ℕ
  kinds b ledger = kinds_of (get b.counts ledger)

  -- The lines of each ledger with its numbers that wait for a line are not more than the numbers given
  -- out, and its tally with the lines that wait to be counted is not above its lines.
  abbrev pub IsAccounted : (String → ℕ) → (String → ℕ) → Logbook F → Type 0
  IsAccounted p u b =
      (l : String)
      → (length (lines b l) + p l ≤ seq_of b l) × (total (kinds b l) + u l ≤ length (lines b l))

  -- the same files and tallies, and the same numbers
  abbrev pub IsSame : Logbook F → Logbook F → Type 0
  IsSame b c =
      (c.files ≡ b.files) × (c.counts ≡ b.counts) × ((l : String) → seq_of c l ≡ seq_of b l)

  pub IsSame-IsAccounted :
      (p u : String → ℕ) (b c : Logbook F) → IsSame b c → IsAccounted p u b → IsAccounted p u c
  IsSame-IsAccounted p u b c (f, k, s) h l = rw (f, k, s l) (h l)

  -- with fewer that wait
  pub IsAccounted-less :
      (p u q v : String → ℕ) (b : Logbook F)
      → ((l : String) → (q l ≤ p l) × (v l ≤ u l))
      → IsAccounted p u b
      → IsAccounted q v b
  IsAccounted-less p u q v b e h l = (omega (arith, h l, e l), omega (arith, h l, e l))

  pub seq_of-put_scribe :
      (ledger : String) (s : Scribe F) (b : Logbook F) (l : String)
      → seq_of (put_scribe ledger s b) l ≡ (if ledger == l then s.seq else seq_of b l)
  seq_of-put_scribe ledger s b l = ground (arith, get-put b.scribes ledger l s)

  -- a scribe that is put back with its number
  pub IsSame-put_scribe :
      (ledger : String) (s : Scribe F) (b : Logbook F)
      → s.seq ≡ seq_of b ledger
      → IsSame b (put_scribe ledger s b)
  IsSame-put_scribe ledger s b e = (
    refl,
    refl,
    λ l. elim (Bool-cases (ledger == l)) [
      | inl q ↦
          let same : ledger ≡ l = (eq_iff ledger l).0 q in
          seq_of-put_scribe ledger s b l ∙ rw q (e ∙ ap (seq_of b) same)
      | inr q ↦ seq_of-put_scribe ledger s b l ∙ rw q refl
    ],
  )
