-- ===== src/Logbook/Calls.antt =====
-- What the calls on a logbook/book.py and its scribes do to the ledgers.
use auto_weaver.Prelude.{
  ℕ, ◌+◌, String, ◌≡◌, refl, sym, ap, Bool, true, false, Option, none, some, [], ◌∷◌, ◌++◌, arith,
  length-append, ◌==◌, string_eq, eq_iff, if◌then◌else◌, inl, inr, Bool-cases,
}
use auto_weaver.Dict.{Dict, get, put, get-put}
use auto_weaver.Value.{Result, ok, err, Result-cases}
use auto_weaver.Exec.{continue}
use auto_weaver.Logbook.Book.{
  total, Row, Scribe, Logbook, Moment, count_of, next_seq, write_line, open_unless, append_line,
  count,
}
use auto_weaver.Logbook.Ledgers.{
  total-put, seq_at, seq_of, lines, kinds, plus_at, IsAccounted, IsSame, IsSame-IsAccounted,
  IsAccounted-less, IsSame-put_scribe, seq_of-put_scribe,
}

-- what a call leaves when it returns and when it raises
abbrev pub Leaves : {S A : Type 0} → (A → S → Type 0) → (S → Type 0) → Result A × S → Type 0
Leaves P Q (ok a, s) = P a s
Leaves P Q (err e, s) = Q s

module _ {F : Type 0} (p u : String → ℕ) where
  -- the next number is given out, and waits for its line
  pub next_seq-IsAccounted :
      (ledger : String) (o : Option (Scribe F)) (b : Logbook F)
      → get b.scribes ledger ≡ o
      → IsAccounted p u b
      → Leaves (λ n c. IsAccounted (plus_at ledger p) u c) (IsAccounted p u) (next_seq ledger b)
  unfolding next_seq
  next_seq-IsAccounted ledger none b e h = rw e h
  next_seq-IsAccounted ledger (some s) b e h =
      let s' : Scribe F = record s { seq = s.seq + 1 } in
      let same : seq_of b ledger ≡ s.seq = ap seq_at e in
      rw e (λ l.
        (ground (arith, seq_of-put_scribe ledger s' b l, same, eq_iff ledger l, (h l).0), (h l).1))

  lines-write_line :
      (ledger : String) (line : Row F) (b : Logbook F) (l : String)
      → lines (write_line ledger line b) l
        ≡ (if ledger == l then lines b ledger ++ line ∷ [] else lines b l)
  lines-write_line ledger line b l =
      ground (arith, get-put b.files ledger l (lines b ledger ++ line ∷ []))

  -- a number that waits gets its line, which waits to be counted
  write_line-IsAccounted :
      (ledger : String) (line : Row F) (b : Logbook F)
      → IsAccounted (plus_at ledger p) u b
      → IsAccounted p (plus_at ledger u) (write_line ledger line b)
  write_line-IsAccounted ledger line b h l =
      let (few, tally) = h l in
      let size = length-append (lines b l) (line ∷ []) in
      let same : ledger == l ≡ true → lines b ledger ≡ lines b l =
        λ e. ap (lines b) ((eq_iff ledger l).0 e) in
      elim (Bool-cases (ledger == l)) [
        | inl q ↦
            rw (lines-write_line ledger line b l, q, same q)
              (ground (arith, few, q, size), ground (arith, tally, q, size))
        | inr q ↦
            rw (lines-write_line ledger line b l, q)
              (ground (arith, few, q), ground (arith, tally, q))
      ]

  -- a call that writes a line for a number that waits
  abbrev pub Wrote : String → Result (Unit {0}) × Logbook F → Type 0
  Wrote ledger = Leaves (λ _ c. IsAccounted p (plus_at ledger u) c) (IsAccounted p u)

  -- the number will have no line
  pub unused-IsAccounted :
      (ledger : String) (b : Logbook F) → IsAccounted (plus_at ledger p) u b → IsAccounted p u b
  unused-IsAccounted ledger b =
      IsAccounted-less (plus_at ledger p) u p u b (λ l. (ground arith, omega arith))

  -- the line will not be counted
  uncounted-IsAccounted :
      (ledger : String) (b : Logbook F) → IsAccounted p (plus_at ledger u) b → IsAccounted p u b
  uncounted-IsAccounted ledger b =
      IsAccounted-less p (plus_at ledger u) p u b (λ l. (omega arith, ground arith))

  write_flush-Wrote :
      (ledger : String) (line : Row F) (b : Logbook F) (r w f : Result (Unit {0}))
      → IsAccounted (plus_at ledger p) u b
      → Wrote ledger (continue r (λ _. λ c. continue w (λ _ d. (f, write_line ledger line d)) c) b)
  write_flush-Wrote ledger line b (err x) w f h = unused-IsAccounted ledger b h
  write_flush-Wrote ledger line b (ok s) (err x) f h = unused-IsAccounted ledger b h
  write_flush-Wrote ledger line b (ok s) (ok t) (ok v) h = write_line-IsAccounted ledger line b h
  write_flush-Wrote ledger line b (ok s) (ok t) (err x) h =
      uncounted-IsAccounted ledger (write_line ledger line b)
        (write_line-IsAccounted ledger line b h)

  open_unless-IsSame :
      (o : Bool) (at : Moment F) (ledger : String) (s : Scribe F) (b : Logbook F)
      → s.seq ≡ seq_of b ledger
      → IsSame b (open_unless o at ledger s b).1
  open_unless-IsSame true at ledger s b e = (refl, refl, λ l. refl)
  open_unless-IsSame false at ledger s b e = elim (Result-cases at.opening) [
    | inl (t, q) ↦ rw q (IsSame-put_scribe ledger (record s { opened = true }) b e)
    | inr (x, q) ↦ rw q (refl, refl, λ l. refl)
  ]

  pub append_line-Wrote :
      (at : Moment F) (ledger : String) (line : Row F) (b : Logbook F) (o : Option (Scribe F))
      → get b.scribes ledger ≡ o
      → IsAccounted (plus_at ledger p) u b
      → Wrote ledger (append_line at ledger line b)
  unfolding append_line
  append_line-Wrote at ledger line b none e h = rw e (unused-IsAccounted ledger b h)
  append_line-Wrote at ledger line b (some s) e h =
      let x = open_unless s.opened at ledger s b in
      rw e (
        write_flush-Wrote ledger line x.1 x.0 at.writing at.flushing (
          IsSame-IsAccounted (plus_at ledger p) u b x.1
            (open_unless-IsSame s.opened at ledger s b (ap seq_at (sym e))) h))

  pub count-IsAccounted :
      (ledger kind : String) (b : Logbook F)
      → IsAccounted p (plus_at ledger u) b
      → IsAccounted p u (count ledger kind b)
  unfolding count
  count-IsAccounted ledger kind b h l =
      let (few, most) = h l in
      let ks : Dict String ℕ =
        put (kinds b ledger) kind (count_of (get (kinds b ledger) kind) + 1) in
      let stored = get-put b.counts ledger l ks in
      elim (Bool-cases (ledger == l)) [
        | inl q ↦
            let tally : kinds (count ledger kind b) l ≡ ks = ground (arith, stored, q) in
            let same : total (kinds b ledger) ≡ total (kinds b l) =
              ap (λ k. total (kinds b k)) ((eq_iff ledger l).0 q) in
            (few, rw tally (ground (arith, most, q, same, total-put (kinds b ledger) kind)))
        | inr q ↦
            let tally : kinds (count ledger kind b) l ≡ kinds b l = ground (arith, stored, q) in
            (few, rw tally (ground (arith, most, q)))
      ]
