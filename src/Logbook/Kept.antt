-- ===== src/Logbook/Kept.antt =====
-- What `write` of logbook/scribe.py leaves of the ledgers, at each of its steps.
use auto_weaver.Prelude.{
  ℕ, ◌+◌, String, ◌≡◌, refl, sym, ap, ◌∙◌, Option, none, some, List, [], ◌∷◌, length, string_eq,
}
use auto_weaver.Dict.{Dict, get}
use auto_weaver.Value.{Result, ok, err}
use auto_weaver.Exec.{Exec, pure, lift, modify, continue, ◌>>=◌}
use auto_weaver.Logbook.{Py, Python}
use auto_weaver.Logbook.Writer.{Attachment}
use auto_weaver.Logbook.Book.{
  Row, Scribe, Logbook, Moment, put_scribe, find_scribe, next_seq, append_line, count,
}
use auto_weaver.Logbook.Attachments.{
  open_writer, attachment_writer, submit_attachment, submit_all, count_dropped, attach,
}
use auto_weaver.Logbook.Scribe.{
  kind_text, stamp, first_row, layered, coerced, build_row, put_row, write_row,
}
use auto_weaver.Logbook.Ledgers.{
  seq_at, plus_at, IsAccounted, IsSame, IsSame-IsAccounted, IsSame-put_scribe,
}
use auto_weaver.Logbook.Calls.{
  Leaves, Wrote, next_seq-IsAccounted, unused-IsAccounted, append_line-Wrote, count-IsAccounted,
}

module _ {F : Type 0} where
  -- the code leaves files, tallies and numbers as they are
  abbrev Keeps : {A : Type 0} → Exec (Logbook F) A → Type 0
  Keeps m = (b : Logbook F) → IsSame b (m b).1

  pub IsSame-trans : (b c d : Logbook F) → IsSame b c → IsSame c d → IsSame b d
  IsSame-trans b c d (f, k, s) (g, l, t) = (g ∙ f, l ∙ k, λ x. t x ∙ s x)

  Keeps-continue :
      {A B : Type 0} (r : Result A) (f : A → Exec (Logbook F) B) (b c : Logbook F)
      → IsSame b c
      → ((a : A) → Keeps (f a))
      → IsSame b (continue r f c).1
  Keeps-continue (err e) f b c h k = h
  Keeps-continue (ok a) f b c h k = IsSame-trans b c (f a c).1 h (k a c)

  Keeps-bind :
      {A B : Type 0} (m : Exec (Logbook F) A) (f : A → Exec (Logbook F) B)
      → Keeps m
      → ((a : A) → Keeps (f a))
      → Keeps (m >>= f)
  Keeps-bind m f h k b = Keeps-continue (m b).0 f b (m b).1 (h b) k

  find_scribe-Keeps : (ledger : String) → Keeps (find_scribe ledger)
  find_scribe-Keeps ledger b = (refl, refl, λ l. refl)

  attachment_writer-Keeps : Keeps attachment_writer
  unfolding attachment_writer
  attachment_writer-Keeps =
      Keeps-bind (λ b. (open_writer b.attachments b.attachment_capacity b.attachment_policy, b)) _
        (λ b. (refl, refl, λ l. refl)) (λ q b. (refl, refl, λ l. refl))

  -- a scribe that is found and put back with its number
  pub put_back-Keeps :
      {A : Type 0} (ledger : String) (f : Scribe F → Scribe F) (v : Scribe F → A)
      (o : Option (Scribe F)) (b : Logbook F)
      → get b.scribes ledger ≡ o
      → ((s : Scribe F) → (f s).seq ≡ s.seq)
      → IsSame b
          (continue (find_scribe ledger b).0 (λ s c. (ok (v s), put_scribe ledger (f s) c)) b).1
  put_back-Keeps ledger f v none b e h = rw e (refl, refl, λ l. refl)
  put_back-Keeps ledger f v (some s) b e h =
      rw e (IsSame-put_scribe ledger (f s) b (h s ∙ ap seq_at (sym e)))

  two_reads_keep :
      {C D E : Type 0} (r : Result C) (t : Result D) (f : C → D → E)
      → Keeps (lift r >>= (λ y. lift t >>= (λ z. pure (f y z))))
  two_reads_keep (err e) t f b = (refl, refl, λ l. refl)
  two_reads_keep (ok c) (err e) f b = (refl, refl, λ l. refl)
  two_reads_keep (ok c) (ok d) f b = (refl, refl, λ l. refl)

  -- code that reads four values, any of which may raise
  four_reads_keep :
      {A B C D E : Type 0} (r : Result A) (m : Exec (Logbook F) B) (g : B → Result C) (t : Result D)
      (f : A → B → C → D → E) (b : Logbook F)
      → Keeps m
      → IsSame b
          (continue r
            (λ a. m >>= (λ x. lift (g x) >>= (λ y. lift t >>= (λ z. pure (f a x y z)))))
            b).1
  four_reads_keep (err e) m g t f b k = (refl, refl, λ l. refl)
  four_reads_keep {A} {B} (ok a) m g t f b k =
      Keeps-bind m (λ x. lift (g x) >>= (λ y. lift t >>= (λ z. pure (f a x y z)))) k
        (λ x. two_reads_keep (g x) t (f a x)) b

module _ (P : Python) where
  submit_attachment-Keeps : (seq : ℕ) (a : Attachment) → Keeps (submit_attachment P seq a)
  unfolding submit_attachment
  submit_attachment-Keeps seq a =
      Keeps-bind attachment_writer _ attachment_writer-Keeps (λ q b. (refl, refl, λ l. refl))

  submit_all-Keeps :
      (seq : ℕ) (as_ : List Attachment) (acc : Dict String String × List String)
      → Keeps (submit_all P seq as_ acc)
  unfolding submit_all
  submit_all-Keeps seq [] acc = λ b. (refl, refl, λ l. refl)
  submit_all-Keeps seq (a ∷ rest) acc =
      Keeps-bind (submit_attachment P seq a) _ (submit_attachment-Keeps seq a)
        (λ r. submit_all-Keeps seq rest _)

  count_dropped-Keeps :
      (ledger : String) (names : List String) → Keeps (count_dropped P ledger names)
  count_dropped-Keeps ledger [] b = (refl, refl, λ l. refl)
  count_dropped-Keeps ledger (name ∷ names) b =
      put_back-Keeps ledger
        (λ s. record s { dropped_attachments = s.dropped_attachments + length (name ∷ names) })
        (λ s. tt) (get b.scribes ledger) b refl (λ s. refl)

  attach-Keeps :
      (ledger : String) (seq : ℕ) (as_ : List Attachment) (row : Row P.Number)
      → Keeps (attach P ledger seq as_ row)
  unfolding attach
  attach-Keeps ledger seq [] row = λ b. (refl, refl, λ l. refl)
  attach-Keeps ledger seq (a ∷ rest) row =
      Keeps-bind (submit_all P seq (a ∷ rest) ([], [])) _ (submit_all-Keeps seq (a ∷ rest) _) (λ r.
        Keeps-bind (count_dropped P ledger r.1) _ (count_dropped-Keeps ledger r.1)
          (λ _ b. (refl, refl, λ l. refl)))

  build_row-Keeps :
      (m : Moment P.Number) (ledger : String) (seq : ℕ) (kind : String) (at : Option P.Number)
      (fields : Row P.Number)
      → Keeps (build_row P m ledger seq kind at fields)
  unfolding build_row
  build_row-Keeps m ledger seq kind at fields b =
      four_reads_keep (coerced P b.context) (find_scribe ledger) (λ s. coerced P s.defaults)
        (coerced P fields)
        (λ context s defaults own.
          layered P (first_row P seq (stamp P m at b) kind) b.row_tags context defaults own)
        b (find_scribe-Keeps ledger)

module _ {F : Type 0} (p u : String → ℕ) where
  -- with a number that waits for its line, code that keeps the ledgers may go ahead
  waiting-continue :
      {A B : Type 0} (W : B → Logbook F → Type 0) (ledger : String) (r : Result A)
      (f : A → Exec (Logbook F) B) (b c : Logbook F)
      → IsSame b c
      → IsAccounted (plus_at ledger p) u b
      → ((a : A) (d : Logbook F)
          → IsAccounted (plus_at ledger p) u d
          → Leaves W (IsAccounted p u) (f a d))
      → Leaves W (IsAccounted p u) (continue r f c)
  waiting-continue W ledger (err e) f b c k h next =
      unused-IsAccounted p u ledger c (IsSame-IsAccounted (plus_at ledger p) u b c k h)
  waiting-continue W ledger (ok a) f b c k h next =
      next a c (IsSame-IsAccounted (plus_at ledger p) u b c k h)

  waiting-bind :
      {A B : Type 0} (W : B → Logbook F → Type 0) (ledger : String) (m : Exec (Logbook F) A)
      (f : A → Exec (Logbook F) B)
      → Keeps m
      → ((a : A) (d : Logbook F)
          → IsAccounted (plus_at ledger p) u d
          → Leaves W (IsAccounted p u) (f a d))
      → (b : Logbook F) → IsAccounted (plus_at ledger p) u b
      → Leaves W (IsAccounted p u) ((m >>= f) b)
  waiting-bind W ledger m f k next b h = waiting-continue W ledger (m b).0 f b (m b).1 (k b) h next

  name-Wrote :
      (ledger name : String) (r : Result (Unit {0})) (c : Logbook F)
      → Wrote p u ledger (r, c)
      → Leaves
          (λ n d. IsAccounted p (plus_at ledger u) d)
          (IsAccounted p u)
          (continue {B = String} r (λ _ d. (ok name, d)) c)
  name-Wrote ledger name (err e) c h = h
  name-Wrote ledger name (ok t) c h = h

module _ (P : Python) (p u : String → ℕ) where
  -- a number that waits gets its line, which waits to be counted, or nothing does
  pub put_row-IsAccounted :
      (m : Moment P.Number) (ledger : String) (kind : Py P.Number) (at : Option P.Number)
      (as_ : List Attachment) (fields : Row P.Number) (seq : ℕ) (b : Logbook P.Number)
      → IsAccounted (plus_at ledger p) u b
      → Leaves
          (λ name c. IsAccounted p (plus_at ledger u) c)
          (IsAccounted p u)
          (put_row P m ledger kind at as_ fields seq b)
  unfolding put_row
  put_row-IsAccounted m ledger kind at as_ fields seq =
      let W : String → Logbook P.Number → Type 0 = λ n c. IsAccounted p (plus_at ledger u) c in
      waiting-bind p u W ledger (lift (kind_text P kind)) _ (λ c. (refl, refl, λ l. refl))
        (λ name.
          waiting-bind p u W ledger (build_row P m ledger seq name at fields) _
            (build_row-Keeps P m ledger seq name at fields)
            (λ row.
              waiting-bind p u W ledger (attach P ledger seq as_ row) _
                (attach-Keeps P ledger seq as_ row)
                (λ whole.
                  waiting-bind p u W ledger (lift (m.dumped whole)) _ (λ c. (refl, refl, λ l. refl))
                    (λ _ d h.
                      name-Wrote p u ledger name (append_line m ledger whole d).0
                        (append_line m ledger whole d).1
                        (append_line-Wrote p u m ledger whole d (get d.scribes ledger) refl h)))))

  count_row-IsAccounted :
      (ledger : String) (x : Result String × Logbook P.Number)
      → Leaves (λ name c. IsAccounted p (plus_at ledger u) c) (IsAccounted p u) x
      → IsAccounted p u (continue {B = Unit} x.0 (λ name. modify (count ledger name)) x.1).1
  count_row-IsAccounted ledger (ok name, c) h = count-IsAccounted p u ledger name c h
  count_row-IsAccounted ledger (err e, c) h = h

  pub write_row-IsAccounted :
      (m : Moment P.Number) (ledger : String) (kind : Py P.Number) (at : Option P.Number)
      (as_ : List Attachment) (fields : Row P.Number) (b : Logbook P.Number)
      → IsAccounted p u b
      → IsAccounted p u (write_row P m ledger kind at as_ fields b).1
  unfolding write_row
  write_row-IsAccounted m ledger kind at as_ fields b h =
      go (next_seq ledger b) (next_seq-IsAccounted p u ledger (get b.scribes ledger) b refl h)
    where
      go :
          (x : Result ℕ × Logbook P.Number)
          → Leaves (λ n c. IsAccounted (plus_at ledger p) u c) (IsAccounted p u) x
          → IsAccounted p u
              (continue x.0
                (λ seq.
                  put_row P m ledger kind at as_ fields seq
                  >>= (λ name. modify (count ledger name)))
                x.1).1
      go (ok seq, c) k =
          count_row-IsAccounted ledger (put_row P m ledger kind at as_ fields seq c)
            (put_row-IsAccounted m ledger kind at as_ fields seq c k)
      go (err e, c) k = k
