-- ===== src/Tests/Comm.antt =====
-- Runs of comm/modbus_primitive.py, on a world that has a time and registers that change with it.
use auto_weaver.Prelude.{
  ◌≤◌, ℕ, ◌+◌, String, ◌≡◌, refl, none, some, List, [], ◌∷◌, arith, leb, if◌then◌else◌, string_eq,
}
use auto_weaver.Dict.{Dict, get}
use auto_weaver.Value.{text, Result, ok, err, read_until_timeout}
use auto_weaver.Comm.{
  RegisterIo, Clock, CommContract, single, mapping, Spec, reorder_pose, normalised, sorted,
  values_at,
}
use auto_weaver.Comm.Engine.{
  Step, Results, run_steps, run_action, do_read_until, start_wait, run_step, run_verb, poll,
}
use auto_weaver.Comm.Ends.{IsSteady, IsOver}
use auto_weaver.Comm.Waits.{timed_wait-IsOver}
use auto_weaver.Comm.Rounds.{run_action_settles}

-- the time, and the values of the block written last
abbrev Plant : Type 0
Plant = ℕ × List ℕ

-- the request of the PLC: 1 from the time 7 on
abbrev io : RegisterIo ℕ Plant
io = record {
  read_u16 = λ register p. (ok (if leb 7 p.0 then 1 else 0), p);
  write_u16 = λ register n p. (ok tt, p);
  read_real32_block = λ start count p. (ok p.1, p);
  write_real32_block = λ start values p. (ok tt, (p.0, values));
}

abbrev clock : Clock Plant
clock = record { monotonic = λ p. (p.0, p); sleep = λ d p. (p.0 + d, p.1) }

steady : IsSteady io clock 2
steady = record {
  now = λ p. p.0;
  reads = λ p. refl;
  asks = λ p. omega arith;
  polls = λ register p. omega arith;
  sleeps = λ p. omega arith;
}

abbrev contract : CommContract
contract = record {
  registers = ("plc_send", 100) ∷ [];
  blocks =
      (
        "cmd_pose",
        record { start = 200; count = 6; order = "z" ∷ "Y" ∷ "x " ∷ "rx" ∷ "ry" ∷ "rz" ∷ [] },
      )
      ∷ [];
  constants = ("SET", 1) ∷ [];
}

abbrev pose : Dict String ℕ
pose = ("x", 1) ∷ ("y", 2) ∷ ("z", 3) ∷ ("rx", 4) ∷ ("ry", 5) ∷ ("rz", 6) ∷ []

abbrev blank : Spec ℕ
blank = record {
  block = none;
  values = none;
  flags = none;
  register = none;
  value = none;
  into = none;
  equals = none;
  timeout_s = none;
}

abbrev await : ℕ → Spec ℕ
await t = record blank {
  register = some "plc_send";
  equals = some (text "SET");
  timeout_s = some (some t);
}

-- move once the PLC asks for it, and read the pose back
abbrev action : ℕ → List (Step ℕ)
action t =
    (("read_until", await t) ∷ [])
    ∷ (("write", record blank { block = some "cmd_pose"; values = some (single (mapping pose)) })
        ∷ [])
    ∷ (("read", record blank { block = some "cmd_pose"; into = some "pose" }) ∷ [])
    ∷ []

timed_wait-IsOver_example :
    IsOver io clock 2
      (record { register = 100; expected = 1; deadline = some 9 })
      (4, [])
      (do_read_until io clock contract 2 6 (await 5) (4, []))
unfolding start_wait get
timed_wait-IsOver_example =
    timed_wait-IsOver io clock contract 2 steady (await 5) 6 5 (4, [])
      (record { register = 100; expected = 1; deadline = some 9 }) refl (omega arith) refl

run_action_settles_example :
    (r : Result (Results ℕ) × Plant) × ((m : ℕ)
      → 10 ≤ m
      → run_action io clock contract 2 m (action 9) [] (0, []) ≡ some r)
run_action_settles_example =
    run_action_settles io clock contract 2 steady 10 (action 9) [] (0, []) (omega arith)
      ((omega arith, tt), ((tt, tt), ((tt, tt), tt)))

times_out :
    run_action io clock contract 2 3 (action 3) [] (0, []) ≡ some (err read_until_timeout, (4, []))
unfolding run_action run_steps run_step run_verb do_read_until start_wait poll get
times_out = refl

ordered :
    reorder_pose pose ("z" ∷ "Y" ∷ "x " ∷ "rx" ∷ "ry" ∷ "rz" ∷ []) ≡ ok (3 ∷ 2 ∷ 1 ∷ 4 ∷ 5 ∷ 6 ∷ [])
unfolding reorder_pose normalised sorted values_at get
ordered = refl
