-- ===== src/Logbook/Rows.antt =====
-- The row that `write` of logbook/scribe.py appends.
use auto_weaver.Prelude.{
  ℕ, ◌+◌, String, ◌≡◌, refl, sym, ap, ◌∙◌, true, false, Option, none, some, List, [], ◌∷◌, ◌++◌,
  arith, ◌==◌, string_eq, eq_iff, if◌then◌else◌, inl, inr, Bool-cases,
}
use mathlib.Core.Path.{subst}
use auto_weaver.Dict.{Dict, get, put, has, get-put}
use auto_weaver.Value.{Result, ok, err}
use auto_weaver.Exec.{Exec, lift, continue, ◌>>=◌}
use auto_weaver.Logbook.{text, number, Py, plain, Python}
use auto_weaver.Logbook.Book.{
  Row, Scribe, Logbook, Moment, update, kinds_of, lines_of, count_of, put_scribe, next_seq,
  write_line, append_line, count,
}
use auto_weaver.Logbook.Attachments.{attach}
use auto_weaver.Logbook.Scribe.{
  kind_text, stamp, coerced_entry, coerced, first_row, layered, build_row, put_row, write,
}
use auto_weaver.Logbook.Ledgers.{lines, kinds}

-- each key once
abbrev pub IsDict : {V : Type 0} → Dict String V → Type 0
IsDict [] = Unit
IsDict ((k, v) ∷ d) = (has d k ≡ false) × IsDict d

-- the narrower value if there is one, or the wider
abbrev pub narrowest : {V : Type 0} → Option V → Option V → Option V
narrowest none o = o
narrowest (some v) o = some v

bind_ok :
    {S A B : Type 0} (m : Exec S A) (f : A → Exec S B) (b c : S) (a : A)
    → m b ≡ (ok a, c)
    → (m >>= f) b ≡ f a c
bind_ok m f b c a e = ap (λ x. continue x.0 f x.1) e

get-none : {V : Type 0} (d : Dict String V) (k : String) → has d k ≡ false → get d k ≡ none
unfolding get has
get-none [] k h = refl
get-none ((j, v) ∷ d) k h = ground (arith, get-none d k, h)

-- the tally of a kind, after it is counted
counted :
    (new old : Dict String (Dict String ℕ)) (ledger name : String)
    → new ≡ old
    → let ks = kinds_of (get new ledger) in
      get (kinds_of (get (put new ledger (put ks name (count_of (get ks name) + 1))) ledger)) name
      ≡ some (count_of (get (kinds_of (get old ledger)) name) + 1)
counted new old ledger name e =
    let ks : Dict String ℕ = kinds_of (get new ledger) in
    let up : Dict String ℕ = put ks name (count_of (get ks name) + 1) in
    let same : kinds_of (get (put new ledger up) ledger) ≡ up =
      ground (arith, get-put new ledger ledger up, eq_iff ledger ledger) in
    ap (λ d. get d name) same
    ∙ ground (arith, get-put ks name name (count_of (get ks name) + 1), eq_iff name name)
    ∙ ap (λ c. some (count_of (get (kinds_of (get c ledger)) name) + 1)) e

pub get-update :
    {V : Type 0} (d more : Dict String V) (k : String)
    → IsDict more
    → get (update d more) k ≡ narrowest (get more k) (get d k)
unfolding update get
get-update d [] k h = refl
get-update d ((j, v) ∷ more) k (f, h) =
    get-update (put d j v) more k h ∙ elim (Bool-cases (j == k)) [
      | inl e ↦
          let same : j ≡ k = (eq_iff j k).0 e in
          let gone : get more k ≡ none = ap (get more) (sym same) ∙ get-none more j f in
          rw (gone, get-put d j k v, e) refl
      | inr e ↦ rw (get-put d j k v, e) refl
    ]

module _ (P : Python) where
  coerced_entry-cases :
      (k : String) (r : Result (Py P.Number)) (rest : Result (Row P.Number)) (own : Row P.Number)
      → coerced_entry P k r rest ≡ ok own
      → (v : Py P.Number) × (row : Row P.Number) × (rest ≡ ok row) × (own ≡ (k, v) ∷ row)
  coerced_entry-cases k (err e) rest own h = absurd (cc)
  coerced_entry-cases k (ok v) (err e) own h = absurd (cc)
  coerced_entry-cases k (ok v) (ok row) own h = (v, row, refl, (cc))

  coerced-keys :
      (d : Row P.Number) (own : Row P.Number) (k : String)
      → coerced P d ≡ ok own
      → has own k ≡ has d k
  unfolding coerced has
  coerced-keys [] own k h = let empty : own ≡ [] = (cc) in rw empty refl
  coerced-keys ((j, w) ∷ d) own k h =
      let (v, row, e, q) = coerced_entry-cases j _ (coerced P d) own h in
      rw q (ap (λ b. if j == k then true else b) (coerced-keys d row k e))

  coerced-IsDict :
      (d : Row P.Number) (own : Row P.Number) → coerced P d ≡ ok own → IsDict d → IsDict own
  unfolding coerced
  coerced-IsDict [] own h i = let empty : [] ≡ own = (cc) in subst IsDict empty tt
  coerced-IsDict ((j, w) ∷ d) own h (f, i) =
      let (v, row, e, q) = coerced_entry-cases j _ (coerced P d) own h in
      subst IsDict (sym q) (coerced-keys d row j e ∙ f, coerced-IsDict d row e i)

  get-layered :
      (first tags context defaults fields : Row P.Number) (k : String)
      → IsDict tags
      → IsDict context
      → IsDict defaults
      → IsDict fields
      → get (layered P first tags context defaults fields) k
        ≡ narrowest (get fields k) (
            narrowest
              (get defaults k)
              (narrowest (get context k) (narrowest (get tags k) (get first k))))
  unfolding layered
  get-layered first tags context defaults fields k t c d f =
      get-update (update (update (update first tags) context) defaults) fields k f
      ∙ ap (narrowest (get fields k)) (
          get-update (update (update first tags) context) defaults k d
          ∙ ap (narrowest (get defaults k)) (
              get-update (update first tags) context k c
              ∙ ap (narrowest (get context k)) (get-update first tags k t)))

  next_seq-some :
      (ledger : String) (s : Scribe P.Number) (b : Logbook P.Number)
      → get b.scribes ledger ≡ some s
      → next_seq ledger b ≡ (ok (s.seq + 1), put_scribe ledger (record s { seq = s.seq + 1 }) b)
  unfolding next_seq
  next_seq-some ledger s b e = rw e refl

  build_row-some :
      (m : Moment P.Number) (ledger name : String) (seq : ℕ) (at : Option P.Number)
      (fields context defaults own : Row P.Number) (s : Scribe P.Number) (b : Logbook P.Number)
      → get b.scribes ledger ≡ some s
      → coerced P b.context ≡ ok context
      → coerced P s.defaults ≡ ok defaults
      → coerced P fields ≡ ok own
      → build_row P m ledger seq name at fields b ≡ (
        ok (layered P (first_row P seq (stamp P m at b) name) b.row_tags context defaults own),
        b,
      )
  unfolding build_row
  build_row-some m ledger name seq at fields context defaults own s b e c d f = rw (c, e, d, f) refl

  append_line-some :
      (m : Moment P.Number) (ledger : String) (line : Row P.Number) (s : Scribe P.Number)
      (b : Logbook P.Number)
      → get b.scribes ledger ≡ some s
      → m.opening ≡ ok tt
      → m.writing ≡ ok tt
      → m.flushing ≡ ok tt
      → let x = append_line m ledger line b in
        (x.0 ≡ ok tt) × (x.1.files ≡ (write_line ledger line b).files) × (x.1.counts ≡ b.counts)
  unfolding append_line
  append_line-some m ledger line s b e o w f = elim (Bool-cases s.opened) [
    | inl q ↦ rw (e, q, w, f) (refl, refl, refl)
    | inr q ↦ rw (e, q, o, w, f) (refl, refl, refl)
  ]

  stamp-put_scribe :
      (m : Moment P.Number) (at : Option P.Number) (ledger : String) (s : Scribe P.Number)
      (b : Logbook P.Number)
      → stamp P m at (put_scribe ledger s b) ≡ stamp P m at b
  stamp-put_scribe m none ledger s b = refl
  stamp-put_scribe m (some mono) ledger s b = refl

  -- the stages of a write that returns, one after the other
  write-count :
      (m : Moment P.Number) (ledger name : String) (kind : Py P.Number) (at : Option P.Number)
      (fields row : Row P.Number) (seq : ℕ) (b c d : Logbook P.Number)
      → next_seq ledger b ≡ (ok seq, c)
      → kind_text P kind ≡ ok name
      → build_row P m ledger seq name at fields c ≡ (ok row, c)
      → m.dumped row ≡ ok tt
      → append_line m ledger row c ≡ (ok tt, d)
      → write P m ledger kind at [] fields b ≡ count ledger name d
  unfolding write attach put_row
  write-count m ledger name kind at fields row seq b c d n k r w a =
      let put : put_row P m ledger kind at [] fields seq c ≡ (ok name, d) =
        bind_ok (lift (kind_text P kind)) _ c c name (ap (λ x. (x, c)) k)
        ∙ bind_ok (build_row P m ledger seq name at fields) _ c c row r
        ∙ bind_ok (lift (m.dumped row)) _ c c tt (ap (λ x. (x, c)) w)
        ∙ bind_ok (append_line m ledger row) _ c d tt a in
      ap (λ x. x.1)
        (bind_ok (next_seq ledger) _ b c seq n
          ∙ bind_ok (put_row P m ledger kind at [] fields seq) _ c d name put)

  first_row-begins :
      (m : Moment P.Number) (at : Option P.Number) (name : String) (seq : ℕ) (b : Logbook P.Number)
      → let row = first_row P seq (stamp P m at b) name in
        (get row "seq" ≡ some (plain (number (P.of_nat seq))))
        × (get row "kind" ≡ some (plain (text name)))
  unfolding update put get
  first_row-begins m none name seq b = (refl, refl)
  first_row-begins m (some mono) name seq b = (refl, refl)

  -- A write without attachments, on a scribe of the book, where no value, clock or file fails and no
  -- other thread calls meanwhile: the
  -- ledger has one more line and the tally of the kind goes up by one. What the line has under a key is
  -- the field of the call, or else the default of the scribe, or else the context, or else the tag of
  -- the run, or else what the row begins with: the times, the kind, and under `seq` the next number of
  -- the scribe.
  pub write-HasAppended :
      (m : Moment P.Number) (ledger name : String) (kind : Py P.Number) (at : Option P.Number)
      (fields context defaults own : Row P.Number) (s : Scribe P.Number) (b : Logbook P.Number)
      → get b.scribes ledger ≡ some s
      → kind_text P kind ≡ ok name
      → coerced P b.context ≡ ok context
      → coerced P s.defaults ≡ ok defaults
      → coerced P fields ≡ ok own
      → ((row : Row P.Number) → m.dumped row ≡ ok tt)
      → m.opening ≡ ok tt
      → m.writing ≡ ok tt
      → m.flushing ≡ ok tt
      → IsDict b.row_tags
      → IsDict b.context
      → IsDict s.defaults
      → IsDict fields
      → let b' = write P m ledger kind at [] fields b in
        (row : Row P.Number) × (lines b' ledger ≡ lines b ledger ++ row ∷ [])
        × (get (first_row P (s.seq + 1) (stamp P m at b) name) "seq"
            ≡ some (plain (number (P.of_nat (s.seq + 1)))))
        × (get (first_row P (s.seq + 1) (stamp P m at b) name) "kind" ≡ some (plain (text name)))
        × (get (kinds b' ledger) name ≡ some (count_of (get (kinds b ledger) name) + 1))
        × ((k : String)
            → get row k
              ≡ narrowest (get own k) (
                  narrowest (get defaults k) (
                    narrowest (get context k) (
                      narrowest
                        (get b.row_tags k)
                        (get (first_row P (s.seq + 1) (stamp P m at b) name) k)))))
  unfolding count
  write-HasAppended m ledger name kind at fields context defaults own s b e kn c d f w o wr fl ti ci
        di fi =
      let next : Scribe P.Number = record s { seq = s.seq + 1 } in
      let b1 : Logbook P.Number = put_scribe ledger next b in
      let found : get b1.scribes ledger ≡ some next =
        ground (arith, get-put b.scribes ledger ledger next, eq_iff ledger ledger) in
      let row : Row P.Number =
        layered P (first_row P (s.seq + 1) (stamp P m at b1) name) b1.row_tags context defaults
          own in
      let (returned, files, counts) = append_line-some m ledger row next b1 found o wr fl in
      let b2 : Logbook P.Number = (append_line m ledger row b1).1 in
      let end : write P m ledger kind at [] fields b ≡ count ledger name b2 =
        write-count m ledger name kind at fields row (s.seq + 1) b b1 b2
          (next_seq-some ledger s b e) kn
          (build_row-some m ledger name (s.seq + 1) at fields context defaults own next b1 found c d
            f)
          (w row) (ap (λ r. (r, b2)) returned) in
      let ls : List (Row P.Number) = lines b ledger ++ row ∷ [] in
      let tags : b1.row_tags ≡ b.row_tags = refl in
      (
        row,
        ap (λ x. lines x ledger) end
            ∙ ap (λ fs. lines_of (get fs ledger)) files
            ∙ ground (arith, get-put b.files ledger ledger ls, eq_iff ledger ledger),
        (first_row-begins m at name (s.seq + 1) b).0,
        (first_row-begins m at name (s.seq + 1) b).1,
        ap (λ x. get (kinds x ledger) name) end ∙ counted b2.counts b.counts ledger name counts,
        λ k.
            get-layered (first_row P (s.seq + 1) (stamp P m at b1) name) b.row_tags context defaults
              own k ti (coerced-IsDict b.context context c ci)
              (coerced-IsDict s.defaults defaults d di) (coerced-IsDict fields own f fi)
            ∙ ap
                (λ t. narrowest (get own k) (
                  narrowest (get defaults k) (
                    narrowest (get context k)
                      (narrowest (get b.row_tags k) (get (first_row P (s.seq + 1) t name) k)))))
                (stamp-put_scribe m at ledger next b),
      )
