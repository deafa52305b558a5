-- ===== src/Logbook/Summary.antt =====
-- What `close` of logbook/book.py writes.
use mathlib.Core.Path.{subst}
use auto_weaver.Prelude.{
  String, ◌≡◌, refl, sym, ap, ◌∙◌, Bool, true, false, Option, none, some, List, [], ◌∷◌, arith,
  ◌==◌, string_eq, eq_iff, ℕ, ◌+◌, if◌then◌else◌, inl, inr, Bool-cases,
}
use auto_weaver.Dict.{Dict, get, has, get-put, keys}
use auto_weaver.Value.{Result, ok, err}
use auto_weaver.Logbook.{number, Py, plain, mapping, Entries, entry, Python}
use auto_weaver.Logbook.Writer.{AttachmentWriter}
use auto_weaver.Logbook.Book.{
  Row, Scribe, Logbook, update, kinds_of, total, is_reserved, close_scribe,
}
use auto_weaver.Logbook.Closing.{
  close_writer, close_scribes, rows_entries, kinds_entries, counts_entries, put_attachments,
  own_summary, saved_summary, write_summary, close_unless, close,
}
use auto_weaver.Logbook.Rows.{narrowest, get-update}

-- the parts of a book that closing its scribes does not touch
abbrev IsSameBook : {F : Type 0} → Logbook F → Logbook F → Type 0
IsSameBook b c =
    (c.counts ≡ b.counts) × (c.summary ≡ b.summary) × (c.closed ≡ b.closed) × (c.files ≡ b.files)

close_scribe-IsSameBook :
    {F : Type 0} (ledger : String) (o : Option (Scribe F)) (b : Logbook F)
    → get b.scribes ledger ≡ o
    → IsSameBook b (close_scribe ledger b).1
unfolding close_scribe
close_scribe-IsSameBook ledger none b e = rw e (refl, refl, refl, refl)
close_scribe-IsSameBook ledger (some s) b e = rw e (refl, refl, refl, refl)

close_scribes-IsSameBook :
    {F : Type 0} (ledgers : List String) (b : Logbook F) → IsSameBook b (close_scribes ledgers b)
close_scribes-IsSameBook [] b = (refl, refl, refl, refl)
close_scribes-IsSameBook (ledger ∷ ledgers) b =
    let (k, s, c, f) = close_scribe-IsSameBook ledger (get b.scribes ledger) b refl in
    let (k', s', c', f') = close_scribes-IsSameBook ledgers (close_scribe ledger b).1 in
    (k' ∙ k, s' ∙ s, c' ∙ c, f' ∙ f)

-- the rows that were counted, over all kinds
pub sum_of : Dict String ℕ → ℕ
sum_of [] = 0
sum_of ((kind, n) ∷ d) = sum_of d + n

-- what a dict has under a text
pub value_in : {F : Type 0} → String → Entries F → Option (Py F)
value_in k Entries.end = none
value_in k (entry (err e) v es) = value_in k es
value_in k (entry (ok j) v es) = if j == k then some v else value_in k es

pub entries_in : {F : Type 0} → Option (Py F) → Entries F
entries_in (some (mapping es)) = es
entries_in v = Entries.end

-- what a dict of dicts has under two texts, the outer first
pub value_within : {F : Type 0} → String → String → Entries F → Option (Py F)
value_within l k es = value_in k (entries_in (value_in l es))

sum_of-total : (d : Dict String ℕ) → total d ≡ sum_of d
unfolding sum_of
sum_of-total [] = refl
sum_of-total ((kind, n) ∷ d) = omega (arith, sum_of-total d)

module _ (P : Python) where
  -- the sum of the counts of a ledger, if it has any
  pub rows_of : Option (Dict String ℕ) → Option (Py P.Number)
  rows_of none = none
  rows_of (some kinds) = some (plain (number (P.of_nat (sum_of kinds))))

  pub count_value : Option ℕ → Option (Py P.Number)
  count_value none = none
  count_value (some n) = some (plain (number (P.of_nat n)))

  value_in-rows_entries :
      (d : Dict String (Dict String ℕ)) (l : String)
      → value_in l (rows_entries P d) ≡ rows_of (get d l)
  unfolding value_in rows_of get
  value_in-rows_entries [] l = refl
  value_in-rows_entries ((ledger, kinds) ∷ d) l = elim (Bool-cases (ledger == l)) [
    | inl e ↦ rw e (ap (λ n. some (plain (number (P.of_nat n)))) (sum_of-total kinds))
    | inr e ↦ rw e (value_in-rows_entries d l)
  ]

  value_in-kinds_entries :
      (d : Dict String ℕ) (k : String) → value_in k (kinds_entries P d) ≡ count_value (get d k)
  unfolding value_in count_value get
  value_in-kinds_entries [] k = refl
  value_in-kinds_entries ((kind, n) ∷ d) k = elim (Bool-cases (kind == k)) [
    | inl e ↦ rw e refl
    | inr e ↦ rw e (value_in-kinds_entries d k)
  ]

  entries_in-counts_entries :
      (d : Dict String (Dict String ℕ)) (l : String)
      → entries_in (value_in l (counts_entries P d)) ≡ kinds_entries P (kinds_of (get d l))
  unfolding value_in entries_in get
  entries_in-counts_entries [] l = refl
  entries_in-counts_entries ((ledger, kinds) ∷ d) l = elim (Bool-cases (ledger == l)) [
    | inl e ↦ rw e refl
    | inr e ↦ rw e (entries_in-counts_entries d l)
  ]

  value_within-counts_entries :
      (d : Dict String (Dict String ℕ)) (l k : String)
      → value_within l k (counts_entries P d) ≡ count_value (get (kinds_of (get d l)) k)
  unfolding value_within
  value_within-counts_entries d l k =
      ap (value_in k) (entries_in-counts_entries d l)
      ∙ value_in-kinds_entries (kinds_of (get d l)) k

  get-put_attachments :
      (o : Option AttachmentWriter) (drained : Bool) (row : Row P.Number) (k : String)
      → ("attachments" == k) ≡ false
      → get (put_attachments P o drained row) k ≡ get row k
  get-put_attachments none drained row k h = refl
  get-put_attachments (some w) drained row k h = get-put row "attachments" k _ ∙ rw h refl

  -- a key that the framework does not own
  get-own_summary :
      (mono : P.Number) (b : Logbook P.Number) (k : String)
      → is_reserved k ≡ false
      → (get (own_summary P mono b) k ≡ none) × (("attachments" == k) ≡ false)
  unfolding get
  get-own_summary mono b k h = (
    ground (
      arith,
      h,
      eq_iff "duration_s" k,
      eq_iff k "duration_s",
      eq_iff "rows" k,
      eq_iff k "rows",
      eq_iff "kinds" k,
      eq_iff k "kinds",
    ),
    ground (
      arith,
      h,
      eq_iff "attachments" k,
      eq_iff k "attachments",
      eq_iff k "duration_s",
      eq_iff k "rows",
      eq_iff k "kinds",
    ),
  )

  -- what the summary has under a key that is not about the attachments
  get-summary :
      (o : Option AttachmentWriter) (drained : Bool) (mono : P.Number) (c : Logbook P.Number)
      (k : String)
      → ("attachments" == k) ≡ false
      → get (put_attachments P o drained (update c.summary (own_summary P mono c))) k
        ≡ narrowest (get (own_summary P mono c) k) (get c.summary k)
  unfolding has
  get-summary o drained mono c k h =
      get-put_attachments o drained (update c.summary (own_summary P mono c)) k h
      ∙ get-update c.summary (own_summary P mono c) k (refl, (refl, (refl, tt)))

  -- The first close of a book whose summary can be written: under "rows" it has, for each ledger that
  -- counted rows, the sum of its counts, under "kinds" the count of each kind of each ledger, and no
  -- others, whatever the business contributed, and the contributed value under each key that the
  -- framework does not own; the lines of the ledgers stay; and closing again changes nothing.
  pub close-HasSummary :
      (saved : Row P.Number → Result (Unit {0})) (mono : P.Number)
      (during : List (Result (Unit {0}))) (b : Logbook P.Number)
      → b.closed ≡ false
      → ((row : Row P.Number) → saved row ≡ ok tt)
      → let b' = close P saved mono during b in
        (row : Row P.Number) × (b'.summary_file ≡ some row)
        × ((rows : Entries P.Number) × (get row "rows" ≡ some (mapping rows))
            × ((l : String) → value_in l rows ≡ rows_of (get b.counts l)))
        × ((tally : Entries P.Number) × (get row "kinds" ≡ some (mapping tally))
            × ((l k : String)
                → value_within l k tally ≡ count_value (get (kinds_of (get b.counts l)) k)))
        × ((k : String) → is_reserved k ≡ false → get row k ≡ get b.summary k)
        × (b'.files ≡ b.files)
        × ((other : Row P.Number → Result (Unit {0})) (later : P.Number)
              (more : List (Result (Unit {0})))
            → close P other later more b' ≡ b')
  unfolding close write_summary get
  close-HasSummary saved mono during b fresh works =
      let r = close_writer during b.attachments in
      let b1 : Logbook P.Number = record b { closed = true; attachments = r.1 } in
      let c : Logbook P.Number = close_scribes (keys b.scribes) b1 in
      let (counts, summary, closed, files) = close_scribes-IsSameBook (keys b.scribes) b1 in
      let row : Row P.Number =
        put_attachments P c.attachments r.0 (update c.summary (own_summary P mono c)) in
      let b' : Logbook P.Number = record c { summary_file = some row } in
      let end : close P saved mono during b ≡ b' =
        ap (λ x. close_unless P x saved mono during b) fresh
        ∙ ap (λ x. saved_summary P x row c) (works row) in
      let found : (k : String)
          → ("attachments" == k) ≡ false
          → get row k ≡ narrowest (get (own_summary P mono c) k) (get c.summary k) =
        get-summary c.attachments r.0 mono c in
      (
        row,
        ap (λ x. x.summary_file) end,
        (
          rows_entries P b.counts,
          found "rows" refl ∙ ap (λ d. some (mapping (rows_entries P d))) counts,
          value_in-rows_entries b.counts,
        ),
        (
          counts_entries P b.counts,
          found "kinds" refl ∙ ap (λ d. some (mapping (counts_entries P d))) counts,
          value_within-counts_entries b.counts,
        ),
        λ k h.
            let (gone, apart) = get-own_summary mono c k h in
            found k apart
            ∙ ap (λ o. narrowest o (get c.summary k)) gone
            ∙ ap (λ d. get d k) summary,
        ap (λ x. x.files) end ∙ files,
        λ other later more.
            subst (λ x. close P other later more x ≡ x) (sym end)
              (ap (λ x. close_unless P x other later more b') closed),
      )
