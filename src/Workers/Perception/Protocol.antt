-- ===== src/Workers/Perception/Protocol.antt =====
-- The request protocol of worker/perception.py: what one note leaves on the board and in the worker.
use auto_weaver.Prelude.{
  ℕ, String, ◌≡◌, refl, sym, ap, ◌∙◌, true, Option, none, some, List, [], ◌∷◌, ◌++◌, append-nil,
}
use auto_weaver.Value.{Value, int, text, Exn, Result, ok, err}
use auto_weaver.Exec.{continue, modify, ◌>>◌}
use auto_weaver.Clock.{WorkerState, faulted}
use auto_weaver.Workers.{Board, key_of, pop_request_id}
use auto_weaver.Workers.Perception.{
  Run, Handler, begin_request, set_current, call_handler, after_handler, receive,
}
use auto_weaver.Workers.Account.{
  logged, behind, completed, requested, took, posted, on_completed, on_error, on_requested,
}

abbrev pub listed : Option ℕ → List ℕ
listed none = []
listed (some n) = n ∷ []

-- What a note has done by the time its receiver returns, by what the handler did: one that returned
-- has its request completed and the state of the worker as it was, one that raised has its request
-- left open and the worker FAULTED. Either way the board's posts before it stand.
pub record HasHandled (B : Board) (name : String) (x : Option Exn) (rid : Option ℕ)
    (r r' : Run (logged B)) : Type 0 where
  pub idle : r'.current_request ≡ none
  pub requests : requested name r'.board.0 ≡ requested name r.board.0 ++ listed rid
  pub returned :
      x ≡ none
      → (completed name r'.board.0 ≡ completed name r.board.0 ++ listed rid)
        × (r'.lifecycle ≡ r.lifecycle)
  pub raised :
      (e : Exn)
      → x ≡ some e
      → (completed name r'.board.0 ≡ completed name r.board.0) × (r'.lifecycle ≡ faulted)

module _ (B : Board) (name : String) (repr : Exn → String) where
  after_handler-HasHandled :
      (x : Option Exn) (rid : Option ℕ) (r r' : Run (logged B))
      → completed name r'.board.0 ≡ completed name r.board.0
      → requested name r'.board.0 ≡ requested name r.board.0 ++ listed rid
      → r'.lifecycle ≡ r.lifecycle
      → HasHandled B name x rid r (after_handler (logged B) name repr x rid r')
  after_handler-HasHandled none none r r' c q l = record {
    idle = refl;
    requests = q;
    returned = λ _. (c ∙ sym (append-nil _), l);
    raised = λ e p. absurd (cc);
  }
  after_handler-HasHandled none (some n) r r' c q l =
      let (c', q') =
        on_completed name n
          (took (B.post (key_of name "last_completed_id") (int n) name r'.board.1).0) r'.board.0 in
      record {
        idle = refl;
        requests = q' ∙ q;
        returned = λ _. (c' ∙ ap (λ k. k ++ n ∷ []) c, l);
        raised = λ e p. absurd (cc);
      }
  after_handler-HasHandled (some e) rid r r' c q l =
      let (c', q') =
        on_error name (repr e)
          (took (B.post (key_of name "last_error") (text (repr e)) name r'.board.1).0) r'.board.0 in
      record {
        idle = refl;
        requests = q' ∙ q;
        returned = λ p. absurd (cc);
        raised = λ e' p. (c' ∙ c, refl);
      }

  -- what the handler does with a note, once its request was noted
  abbrev pub outcome : Handler B → Option ℕ → Value → Run (logged B) → Option Exn
  outcome handler rid payload r =
      (handler payload (begin_request (logged B) name repr rid r).1.board.1).0

  noted_handled :
      (handler : Handler B) (x : Result (Unit {0})) (n : ℕ) (payload : Value) (r : Run (logged B))
      (b : B.State)
      → x ≡ ok tt
      → HasHandled B name
          (handler payload b).0
          (some n)
          r
          (continue x
            (λ _. modify (λ r'.
              call_handler
                (logged B)
                name
                repr
                (behind B handler)
                (some n)
                payload
                (set_current (logged B) name repr (some n) r')))
            (record r {
              board = (r.board.0 ++ posted name "last_request_id" (int n) (took x) ∷ [], b);
            })).1
  noted_handled handler (err y) n payload r b e = absurd (cc)
  noted_handled handler (ok u) n payload r b e =
      let (c, q) = on_requested name n true r.board.0 in
      let (x, b') = handler payload b in
      let log = r.board.0 ++ posted name "last_request_id" (int n) true ∷ [] in
      after_handler-HasHandled x (some n) r
        (record r { current_request = some n; board = (log, b') }) c q refl

  handled_as :
      (handler : Handler B) (rid : Option ℕ) (payload : Value) (r : Run (logged B))
      → (begin_request (logged B) name repr rid r).0 ≡ ok tt
      → HasHandled B name
          (outcome handler rid payload r)
          rid
          r
          ((begin_request (logged B) name repr rid
              >> modify (λ r'.
                call_handler
                  (logged B)
                  name
                  repr
                  (behind B handler)
                  rid
                  payload
                  (set_current (logged B) name repr rid r')))
            r).1
  handled_as handler none payload r e =
      let (x, b) = handler payload r.board.1 in
      after_handler-HasHandled x none r (record r { board = (r.board.0, b) }) refl
        (sym (append-nil (requested name r.board.0))) refl
  handled_as handler (some n) payload r e =
      let (x, b) = B.post (key_of name "last_request_id") (int n) name r.board.1 in
      noted_handled handler x n payload r b e

-- For a note whose request id the board takes, or that has none: if the handler returns,
-- `last_completed_id` is posted for its request and the state of the worker is as it was; if the
-- handler raises, no completion is posted and the worker is FAULTED. In both cases the request is
-- noted and no request is current afterwards. The handler knows nothing of the account of posts.
pub receive-HasHandled :
    (B : Board) (name : String) (repr : Exn → String) (handler : Handler B) (payload : Value)
    (r : Run (logged B))
    → (begin_request (logged B) name repr (pop_request_id payload).0 r).0 ≡ ok tt
    → HasHandled B name
        (outcome B name repr handler (pop_request_id payload).0 (pop_request_id payload).1 r)
        (pop_request_id payload).0
        r
        (receive (logged B) name repr (behind B handler) payload r).1
unfolding receive
receive-HasHandled B name repr handler payload r e =
    let (rid, rest) = pop_request_id payload in handled_as B name repr handler rid rest r e

module _ (B : Board) (name : String) (repr : Exn → String) where
  after_handler-board :
      (x : Option Exn) (rid : Option ℕ) (r : Run B) (s : WorkerState) (now : Option ℕ) (b : B.State)
      → (after_handler B name repr x rid
          (record { lifecycle = s; current_request = now; board = b })).board
        ≡ (after_handler B name repr x rid (record r { current_request = now; board = b })).board
  after_handler-board none none r s now b = refl
  after_handler-board none (some n) r s now b = refl
  after_handler-board (some e) rid r s now b = refl

  handled_note :
      (handler : Handler B) (x : Result (Unit {0})) (n : ℕ) (payload : Value) (r : Run B)
      (s : WorkerState) (b : B.State)
      → (continue x
          (λ _. modify (λ r.
            call_handler B name repr handler (some n) payload (set_current B name repr (some n) r)))
          (record r { lifecycle = s; board = b })).1.board
        ≡ (continue x
            (λ _. modify (λ r.
              call_handler B name repr handler
                (some n)
                payload
                (set_current B name repr (some n) r)))
            (record r { board = b })).1.board
  handled_note handler (err e) n payload r s b = refl
  handled_note handler (ok _) n payload r s b =
      let (x, b') = handler payload b in after_handler-board x (some n) r s (some n) b'

  same_posts :
      (handler : Handler B) (rid : Option ℕ) (payload : Value) (r : Run B) (s : WorkerState)
      → ((begin_request B name repr rid
            >> modify
                (λ r. call_handler B name repr handler rid payload (set_current B name repr rid r)))
          (record r { lifecycle = s })).1.board
        ≡ ((begin_request B name repr rid
              >> modify (λ r.
                call_handler B name repr handler rid payload (set_current B name repr rid r)))
            r).1.board
  same_posts handler none payload r s =
      let (x, b') = handler payload r.board in after_handler-board x none r s r.current_request b'
  same_posts handler (some n) payload r s =
      let (x, b) = B.post (key_of name "last_request_id") (int n) name r.board in
      handled_note handler x n payload r s b
