-- ===== src/WorldBoard/Notes.antt =====
-- Passing and delivering notes on the WorldBoard: `pass_note`, `deliver_notes`.
use auto_weaver.Prelude.{
  ℕ, String, ◌≡◌, refl, sym, ◌∙◌, true, Option, none, some, List, [], ◌∷◌, ◌++◌, append_assoc,
  append-nil, pair_eq, string_eq,
}
use auto_weaver.Dict
use auto_weaver.Dict.{Dict}
use auto_weaver.Value.{Value, Exn, ok, is_instance}
use auto_weaver.WorldBoard.{
  Address, NoteAcceptor, PendingNote, WorldBoard, Receiver, pass_note, call_receiver, deliver_one,
  deliver_loop, deliver_notes,
}

-- A call of a receiver: its number and the payload.
abbrev pub Call : Type 0
Call = ℕ × Value

abbrev pub call_for : Option NoteAcceptor → Value → List Call
call_for none payload = []
call_for (some a) payload = (a.on_receive, payload) ∷ []

abbrev pub call_of : Dict Address NoteAcceptor → PendingNote → List Call
call_of acceptors note =
    call_for (Dict.get acceptors (record { first = note.namespace; second = note.name }))
      note.payload

-- The calls that a queue of notes stands for, in its order; a note with no receiver is none.
abbrev pub calls_of : Dict Address NoteAcceptor → List PendingNote → List Call
calls_of acceptors [] = []
calls_of acceptors (note ∷ rest) = call_of acceptors note ++ calls_of acceptors rest

-- The same receivers, with a record of the calls made.
abbrev pub logged {ℓ} : {E : Type ℓ} → Receiver E → Receiver (List Call × E)
logged receive n v b (calls, e) =
    let (x, b', e') = receive n v b e in (x, b', (calls ++ (n, v) ∷ [], e'))

-- No receiver adds or removes a receiver.
abbrev pub KeepsAcceptors {ℓ} : {E : Type ℓ} → Receiver E → Type ℓ
KeepsAcceptors {E} receive =
    (n : ℕ) (v : Value) (b : WorldBoard) (e : E)
    → (receive n v b e).1.note_acceptors ≡ b.note_acceptors

module _ {ℓ} {E : Type ℓ} (receive : Receiver E) (keeps : KeepsAcceptors receive) where
  call_receiver-logged :
      (o : Option NoteAcceptor) (v : Value) (b : WorldBoard) (calls : List Call) (e : E)
      → let (x, b', s) = call_receiver (logged receive) o v b (calls, e) in
        (s.0 ≡ calls ++ call_for o v) × (b'.note_acceptors ≡ b.note_acceptors)
  unfolding call_receiver
  call_receiver-logged none v b calls e = (sym (append-nil calls), refl)
  call_receiver-logged (some a) v b calls e = (refl, keeps a.on_receive v b e)

  deliver_one-logged :
      (note : PendingNote) (b : WorldBoard) (calls : List Call) (e : E)
      → let (x, b', s) = deliver_one (logged receive) note b (calls, e) in
        (s.0 ≡ calls ++ call_of b.note_acceptors note) × (b'.note_acceptors ≡ b.note_acceptors)
  unfolding deliver_one
  deliver_one-logged note b calls e =
      call_receiver-logged
        (Dict.get b.note_acceptors (record { first = note.namespace; second = note.name }))
        note.payload b calls e

  deliver_loop-logged :
      (notes : List PendingNote) (errors : List Exn) (b : WorldBoard) (calls : List Call) (e : E)
      → (deliver_loop (logged receive) notes errors b (calls, e)).2.0
        ≡ calls ++ calls_of b.note_acceptors notes
  unfolding deliver_loop
  deliver_loop-logged [] errors b calls e = sym (append-nil calls)
  deliver_loop-logged (note ∷ rest) errors b calls e =
      let (x, b', s) = deliver_one (logged receive) note b (calls, e) in
      let (one, same) = deliver_one-logged note b calls e in
      deliver_loop-logged rest (elim x [ none ↦ errors | some exn ↦ errors ++ exn ∷ [] ]) b' s.0 s.1
      ∙ rw (one, same, append_assoc)

  -- Every pending note that has a receiver is delivered once, in the order in which the notes were
  -- passed, whatever receivers raise on the way, if no receiver adds or removes a receiver.
  pub deliver_notes_calls :
      (b : WorldBoard) (e : E)
      → (deliver_notes (logged receive) b ([], e)).2.0 ≡ calls_of b.note_acceptors b.pending_notes
  unfolding deliver_notes
  deliver_notes_calls b e =
      deliver_loop-logged b.pending_notes [] (record b { pending_notes = [] }) [] e

calls_of-append :
    (acceptors : Dict Address NoteAcceptor) (xs ys : List PendingNote)
    → calls_of acceptors (xs ++ ys) ≡ calls_of acceptors xs ++ calls_of acceptors ys
calls_of-append acceptors [] ys = refl
calls_of-append acceptors (note ∷ xs) ys = rw (calls_of-append acceptors xs ys, append_assoc)

-- A note that `pass_note` accepts adds one call, of the receiver registered for it and with its
-- payload, behind the calls that were pending; it shows in no state field.
calls-pass_note :
    (namespace name : String) (payload : Value) (sender : String) (b : WorldBoard)
    (a : NoteAcceptor)
    → Dict.get b.note_acceptors (record { first = namespace; second = name }) ≡ some a
    → is_instance payload a.payload_type ≡ true
    → let (r, b') = pass_note namespace name payload sender b in
      (r ≡ ok tt)
      × (calls_of b'.note_acceptors b'.pending_notes
          ≡ calls_of b.note_acceptors b.pending_notes ++ (a.on_receive, payload) ∷ [])
      × (b'.current ≡ b.current)
unfolding pass_note
calls-pass_note namespace name payload sender b a h t =
    rw (h, t, calls_of-append, h) (refl, refl, refl)
