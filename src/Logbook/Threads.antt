-- ===== src/Logbook/Threads.antt =====
-- The calls on a book of logbook/book.py, with calls of `write` of logbook/scribe.py in several threads.
use auto_weaver.Prelude.{
  ℕ, zero, suc, String, ◌≡◌, refl, sym, Option, none, some, List, [], ◌∷◌, arith,
}
use auto_weaver.Value.{Result, ok, err}
use auto_weaver.Logbook.{Py, Python}
use auto_weaver.Logbook.Writer.{Attachment}
use auto_weaver.Logbook.Book.{
  Row, Logbook, Moment, scribe, set_context, update_context, summarise, take_dropped_attachments,
  close_scribe, next_seq, count,
}
use auto_weaver.Logbook.Scribe.{put_row, write}
use auto_weaver.Logbook.Ledgers.{plus_at}
use auto_weaver.Logbook.Closing.{close}

-- what a call of `write` is given
pub record Request (P : Python) : Type 0 where
  pub ledger : String
  pub kind : Py P.Number
  pub at : Option P.Number
  pub attachments : List Attachment
  pub fields : Row P.Number

-- A call of `write` that is under way in a thread: its row has a number, or its line is written and not
-- counted.
pub data Writing (P : Python) : Type 0 where
  numbered : Request P → ℕ → Writing P
  written : String → String → Writing P

-- a book, and the calls of `write` that are under way
pub record Desk (P : Python) : Type 0 where
  pub book : Logbook P.Number
  pub under_way : List (Writing P)

-- What a thread does to a book or to the scribe of a ledger: a call, or one of the three steps of a call
-- of `write`, which `begins` with the number and `goes_on` at its place among those under way. Whatever
-- is raised, the book goes on.
pub data Call (P : Python) : Type 0 where
  opens : String → Row P.Number → Call P
  writes : Moment P.Number → Request P → Call P
  begins : Request P → Call P
  goes_on : ℕ → Moment P.Number → Call P
  sets_context updates_context summarises : Row P.Number → Call P
  takes_dropped closes : String → Call P
  finishes : (Row P.Number → Result (Unit {0})) → P.Number → List (Result (Unit {0})) → Call P

abbrev behind : {A : Type 0} → A → Option (A × List A) → Option (A × List A)
behind x none = none
behind x (some (y, ys)) = some (y, x ∷ ys)

-- an item and the others
abbrev pub pick : {A : Type 0} → ℕ → List A → Option (A × List A)
pick i [] = none
pick zero (x ∷ xs) = some (x, xs)
pick (suc i) (x ∷ xs) = behind x (pick i xs)

-- how many numbers of a ledger wait for a line
abbrev pub waiting : {P : Python} → List (Writing P) → String → ℕ
waiting [] l = 0
waiting (numbered q n ∷ ws) l = plus_at q.ledger (waiting ws) l
waiting (written ledger name ∷ ws) l = waiting ws l

-- how many lines of a ledger wait to be counted
abbrev pub uncounted : {P : Python} → List (Writing P) → String → ℕ
uncounted [] l = 0
uncounted (numbered q n ∷ ws) l = uncounted ws l
uncounted (written ledger name ∷ ws) l = plus_at ledger (uncounted ws) l

pub pick-waiting :
    {P : Python} (i : ℕ) (ws : List (Writing P)) (w : Writing P) (rest : List (Writing P))
    → pick i ws ≡ some (w, rest)
    → (l : String)
    → (waiting (w ∷ rest) l ≡ waiting ws l) × (uncounted (w ∷ rest) l ≡ uncounted ws l)
pick-waiting {P} i [] w rest e l = absurd (cc)
pick-waiting {P} zero (x ∷ xs) w rest e l =
    let same : x ≡ w = (cc) in let others : xs ≡ rest = (cc) in rw (same, others) (refl, refl)
pick-waiting {P} (suc i) (x ∷ xs) w rest e l =
    go (λ y ys f. pick-waiting i xs y ys f l) (pick i xs) refl e
  where
    add :
        (y z : Writing P) (ys : List (Writing P))
        → (waiting (y ∷ ys) l ≡ waiting xs l) × (uncounted (y ∷ ys) l ≡ uncounted xs l)
        → (waiting (y ∷ z ∷ ys) l ≡ waiting (z ∷ xs) l)
          × (uncounted (y ∷ z ∷ ys) l ≡ uncounted (z ∷ xs) l)
    add (numbered q n) (numbered r k) ys (a, b) = (ground (arith, a), b)
    add (numbered q n) (written r k) ys (a, b) = (a, ground (arith, b))
    add (written q n) (numbered r k) ys (a, b) = (ground (arith, a), b)
    add (written q n) (written r k) ys (a, b) = (a, ground (arith, b))

    go :
        ((y : Writing P) (ys : List (Writing P))
          → pick i xs ≡ some (y, ys)
          → (waiting (y ∷ ys) l ≡ waiting xs l) × (uncounted (y ∷ ys) l ≡ uncounted xs l))
        → (o : Option (Writing P × List (Writing P))) → pick i xs ≡ o
        → behind x o ≡ some (w, rest)
        → (waiting (w ∷ rest) l ≡ waiting (x ∷ xs) l)
          × (uncounted (w ∷ rest) l ≡ uncounted (x ∷ xs) l)
    go below none f h = absurd (cc)
    go below (some (y, ys)) f h =
        let same : y ≡ w = (cc) in
        let others : x ∷ ys ≡ rest = (cc) in rw (sym same, sym others) (add y x ys (below y ys f))

module _ (P : Python) where
  abbrev pub begun : Request P → Result ℕ × Logbook P.Number → List (Writing P) → Desk P
  begun q (ok n, c) ws = record { book = c; under_way = numbered q n ∷ ws }
  begun q (err e, c) ws = record { book = c; under_way = ws }

  abbrev pub put_down : String → Result String × Logbook P.Number → List (Writing P) → Desk P
  put_down ledger (ok name, c) ws = record { book = c; under_way = written ledger name ∷ ws }
  put_down ledger (err e, c) ws = record { book = c; under_way = ws }

  abbrev pub advanced : Moment P.Number → Option (Writing P × List (Writing P)) → Desk P → Desk P
  advanced m none k = k
  advanced m (some (numbered q n, ws)) k =
      put_down q.ledger (put_row P m q.ledger q.kind q.at q.attachments q.fields n k.book) ws
  advanced m (some (written ledger name, ws)) k = record {
    book = count ledger name k.book;
    under_way = ws;
  }

  abbrev pub on_book : (Logbook P.Number → Logbook P.Number) → Desk P → Desk P
  on_book f k = record k { book = f k.book }

  abbrev pub after_call : Call P → Desk P → Desk P
  after_call (opens ledger defaults) k = on_book (scribe ledger defaults) k
  after_call (writes m q) k = on_book (write P m q.ledger q.kind q.at q.attachments q.fields) k
  after_call (begins q) k = begun q (next_seq q.ledger k.book) k.under_way
  after_call (goes_on i m) k = advanced m (pick i k.under_way) k
  after_call (sets_context pairs) k = on_book (set_context pairs) k
  after_call (updates_context pairs) k = on_book (update_context pairs) k
  after_call (summarises fields) k = on_book (λ b. (summarise fields b).1) k
  after_call (takes_dropped ledger) k = on_book (λ b. (take_dropped_attachments ledger b).1) k
  after_call (closes ledger) k = on_book (λ b. (close_scribe ledger b).1) k
  after_call (finishes saved mono during) k = on_book (close P saved mono during) k

  unfoldable pub after_calls : List (Call P) → Desk P → Desk P
  after_calls [] k = k
  after_calls (c ∷ cs) k = after_calls cs (after_call c k)
