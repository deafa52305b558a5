-- ===== src/Workers/Motion/Served.antt =====
-- What each call on a MotionWorker of worker/motion.py leaves of the requests.
use auto_weaver.Workers.Account.{
  logged, behind, completed, requested, posted, took, on_completed, on_error, on_requested,
}
use auto_weaver.Prelude.{
  ℕ, zero, suc, ◌+◌, String, ◌≡◌, refl, sym, ap, ◌∙◌, Bool, true, false, Option, none, some, List,
  [], ◌∷◌, ◌++◌, string_eq, leb, append_assoc, append-nil,
}
use auto_weaver.Value.{Value, int, text, Exn, Result, ok, err}
use auto_weaver.Exec.{Exec, continue, modify, ◌>>◌}
use auto_weaver.Workers.{Board, key_of}
use auto_weaver.Workers.Motion.{
  Run, Dispatch, Settings, busy_at, complete, complete_pending, completion_at, error_at, grace,
  idle_at, write_completion, error_message, write_error, after_dispatch, cancel_pending,
  call_dispatch, post_request,
}

abbrev pub waiting : Option ℕ → List ℕ
waiting none = []
waiting (some n) = n ∷ []

-- Every request that was taken has been completed, in order, but for the one that is pending.
unfoldable pub IsServed : (B : Board) → Settings → Run (logged B) → Type 0
IsServed B w r = completed w.name r.board.0 ++ waiting r.motion.pending ≡ requested w.name r.board.0

module _ (B : Board) (w : Settings) where
  pub complete-IsServed :
      (n : ℕ) (r : Run (logged B))
      → completed w.name r.board.0 ++ n ∷ [] ≡ requested w.name r.board.0
      → IsServed B w (complete (logged B) w n r)
  unfolding IsServed write_completion
  complete-IsServed n r h =
      let (c, q) =
        on_completed w.name n
          (took (B.post (key_of w.name "last_completed_id") (int n) w.name r.board.1).0)
          r.board.0 in
      append-nil _ ∙ c ∙ h ∙ sym q

  pub pending_is :
      (o : Option ℕ) (r : Run (logged B))
      → r.motion.pending ≡ o
      → IsServed B w r
      → completed w.name r.board.0 ++ waiting o ≡ requested w.name r.board.0
  unfolding IsServed
  pending_is o r e h = ap (λ x. completed w.name r.board.0 ++ waiting x) (sym e) ∙ h

  -- a request that is completed once its error was posted
  pub error-IsServed :
      (n : ℕ) (m : String) (r : Run (logged B))
      → completed w.name r.board.0 ++ n ∷ [] ≡ requested w.name r.board.0
      → IsServed B w (complete (logged B) w n (write_error (logged B) w m r))
  error-IsServed n m r h =
      let r' = write_error (logged B) w m r in
      let (c, q) =
        on_error w.name m (took (B.post (key_of w.name "last_error") (text m) w.name r.board.1).0)
          r.board.0 in
      complete-IsServed n r' (ap (λ l. l ++ n ∷ []) c ∙ h ∙ sym q)

  pub busy_at-IsServed :
      (o : Option ℕ) (b : Bool) (r : Run (logged B))
      → IsServed B w r
      → IsServed B w (busy_at (logged B) w o b r)
  unfolding IsServed
  busy_at-IsServed (some n) false r h = h
  busy_at-IsServed (some n) true r h = h
  busy_at-IsServed none b r h = h

  pub completion_at-IsServed :
      (o : Option ℕ) (b : Bool) (r : Run (logged B))
      → r.motion.pending ≡ o
      → IsServed B w r
      → IsServed B w (completion_at (logged B) w o b r)
  completion_at-IsServed (some n) true r e h = complete-IsServed n r (pending_is (some n) r e h)
  completion_at-IsServed (some n) false r e h = h
  completion_at-IsServed none b r e h = h

  pub error_at-IsServed :
      (o : Option ℕ) (m : String) (r : Run (logged B))
      → r.motion.pending ≡ o
      → IsServed B w r
      → IsServed B w (error_at (logged B) w o m r)
  error_at-IsServed none m r e h = h
  error_at-IsServed (some n) m r e h =
      error-IsServed n (error_message (logged B) w n m) r (pending_is (some n) r e h)

  pub grace-IsServed :
      (b : Bool) (n : ℕ) (r : Run (logged B))
      → r.motion.pending ≡ some n
      → IsServed B w r
      → IsServed B w (grace (logged B) w b n r)
  grace-IsServed true n r e h = complete-IsServed n r (pending_is (some n) r e h)
  grace-IsServed false n r e h = h

  pub idle_at-IsServed :
      (o : Option ℕ) (b : Bool) (most : ℕ) (r : Run (logged B))
      → r.motion.pending ≡ o
      → IsServed B w r
      → IsServed B w (idle_at (logged B) w o b most r)
  idle_at-IsServed none b most r e h = h
  idle_at-IsServed (some n) true most r e h = h
  idle_at-IsServed (some n) false zero r e h = h
  idle_at-IsServed (some n) false (suc most) r e h =
      grace-IsServed (leb (suc most) (r.motion.idle_ticks + 1)) n
        (record r { motion = record r.motion { idle_ticks = r.motion.idle_ticks + 1 } }) e
        (unfold IsServed in h)

  pub complete_pending-IsServed :
      (o : Option ℕ) (r : Run (logged B))
      → r.motion.pending ≡ o
      → IsServed B w r
      → IsServed B w (complete_pending (logged B) w o r)
  complete_pending-IsServed none r e h = h
  complete_pending-IsServed (some n) r e h = complete-IsServed n r (pending_is (some n) r e h)

  -- what was taken and not completed: the pending request, and behind it the one being received
  pub IsOwing : Option ℕ → Run (logged B) → Type 0
  IsOwing rid r =
      completed w.name r.board.0 ++ (waiting r.motion.pending ++ waiting rid)
      ≡ requested w.name r.board.0

  pub complete_pending-IsOwing :
      (o rid : Option ℕ) (r : Run (logged B))
      → r.motion.pending ≡ o
      → IsOwing rid r
      → let r' = complete_pending (logged B) w o r in
        completed w.name r'.board.0 ++ waiting rid ≡ requested w.name r'.board.0
  unfolding IsOwing write_completion
  complete_pending-IsOwing none rid r e h =
      ap (λ x. completed w.name r.board.0 ++ (waiting x ++ waiting rid)) (sym e) ∙ h
  complete_pending-IsOwing (some n) rid r e h =
      let (c, q) =
        on_completed w.name n
          (took (B.post (key_of w.name "last_completed_id") (int n) w.name r.board.1).0)
          r.board.0 in
      ap (λ l. l ++ waiting rid) c
      ∙ append_assoc (completed w.name r.board.0) (n ∷ []) (waiting rid)
      ∙ ap (λ x. completed w.name r.board.0 ++ (waiting x ++ waiting rid)) (sym e)
      ∙ h
      ∙ sym q

  pub after_dispatch-IsServed :
      (x : Option Exn) (rid : Option ℕ) (r : Run (logged B))
      → completed w.name r.board.0 ++ waiting rid ≡ requested w.name r.board.0
      → IsServed B w (after_dispatch (logged B) w x rid r)
  after_dispatch-IsServed none rid r h = unfold IsServed in h
  after_dispatch-IsServed (some e) (some n) r h = error-IsServed n (w.repr e) r h
  after_dispatch-IsServed (some e) none r h =
      let (c, q) =
        on_error w.name (w.repr e)
          (took (B.post (key_of w.name "last_error") (text (w.repr e)) w.name r.board.1).0)
          r.board.0 in
      unfold IsServed in (append-nil _ ∙ c ∙ sym (append-nil _) ∙ h ∙ sym q)

  pub received-IsServed :
      (dispatch : Dispatch B) (rid : Option ℕ) (payload : Value) (r : Run (logged B))
      → IsOwing rid r
      → IsServed B w (
          call_dispatch
            (logged B)
            w
            (behind B dispatch)
            rid
            payload
            (cancel_pending (logged B) w r))
  unfolding cancel_pending
  received-IsServed dispatch rid payload r h =
      let r' : Run (logged B) = complete_pending (logged B) w r.motion.pending r in
      let (x, b) = behind B dispatch payload r'.board in
      after_dispatch-IsServed x rid (record r' { board = b })
        (complete_pending-IsOwing r.motion.pending rid r refl h)

  pub post_ok-IsServed :
      {A : Type 0} (x : Result A) (f : A → Exec (Run (logged B)) Unit) (n : ℕ)
      (r r' : Run (logged B))
      → r'.motion ≡ r.motion
      → r'.board.0 ≡ r.board.0 ++ posted w.name "last_request_id" (int n) (took x) ∷ []
      → IsServed B w r
      → ((a : A) → IsOwing (some n) r' → IsServed B w (f a r').1)
      → IsServed B w (continue x f r').1
  unfolding IsServed IsOwing
  post_ok-IsServed (ok a) f n r r' m e h k =
      let (c, q) = on_requested w.name n true r.board.0 in
      k a (
        rw (m, e, c, q)
          (sym (append_assoc (completed w.name r.board.0) (waiting r.motion.pending) (n ∷ []))
            ∙ ap (λ l. l ++ n ∷ []) h))
  post_ok-IsServed (err x) f n r r' m e h k =
      let (c, q) = on_requested w.name n false r.board.0 in rw (m, e, c, q) (h ∙ sym (append-nil _))

  pub received_as :
      (dispatch : Dispatch B) (rid : Option ℕ) (payload : Value) (r : Run (logged B))
      → IsServed B w r
      → IsServed B w
          ((post_request (logged B) w rid
              >> modify (λ r.
                call_dispatch
                  (logged B)
                  w
                  (behind B dispatch)
                  rid
                  payload
                  (cancel_pending (logged B) w r)))
            r).1
  received_as dispatch none payload r h =
      received-IsServed dispatch none payload r
        (unfold IsOwing IsServed in ap (λ l. completed w.name r.board.0 ++ l) (append-nil _) ∙ h)
  received_as dispatch (some n) payload r h =
      let (x, b) = (logged B).post (key_of w.name "last_request_id") (int n) w.name r.board in
      post_ok-IsServed x _ n r (record r { board = b }) refl refl h
        λ _ o. received-IsServed dispatch (some n) payload (record r { board = b }) o
