-- ===== src/Blackboard.antt =====
-- motion_policy/blackboard.py: the key-value store of one Batch, with its single-writer rule.
pub mod Writers
use auto_weaver.Prelude.{
  String, Bool, true, false, not, Option, none, some, List, [], ◌==◌, string_eq,
}
use auto_weaver.Dict
use auto_weaver.Dict.{Dict}
use auto_weaver.Value.{Value, Ty, is_instance, permission_error, type_error, value_error}
use auto_weaver.Exec.{Exec, gets, modify, raise_if, ◌>>=◌, ◌>>◌}

pub record Blackboard : Type 0 where
  pub contents : Dict String Value
  pub writers : Dict String String
  pub types : Dict String Ty

abbrev pub new : Blackboard
new = record { contents = []; writers = []; types = [] }

-- whether a registration of another writer stands against `writer`
unfoldable pub owned_by_other : Option String → String → Bool
owned_by_other none writer = false
owned_by_other (some owner) writer = not (owner == writer)

-- whether a registered type refuses the value
unfoldable pub wrong_type : Option Ty → Value → Bool
wrong_type none value = false
wrong_type (some t) value = not (is_instance value t)

unfoldable pub register_key : String → Ty → String → Exec Blackboard Unit
unfolding owned_by_other
register_key key value_type writer = do
  registered ← gets (λ b. Dict.get b.writers key)
  raise_if (owned_by_other registered writer) value_error
  modify λ b. record b {
    writers = Dict.put b.writers key writer;
    types = Dict.put b.types key value_type;
  }

unfoldable pub write : String → Value → String → Exec Blackboard Unit
unfolding owned_by_other wrong_type
write key value writer = do
  registered ← gets (λ b. Dict.get b.writers key)
  raise_if (owned_by_other registered writer) permission_error
  expected ← gets (λ b. Dict.get b.types key)
  raise_if (wrong_type expected value) type_error
  modify (λ b. record b { contents = Dict.put b.contents key value })

-- `read(key)` is `none` for a missing key; the default stands in for that at the call
unfoldable pub read : Blackboard → String → Option Value
read b key = Dict.get b.contents key

unfoldable pub set_initial : String → Value → Blackboard → Blackboard
set_initial key value b = record b { contents = Dict.put b.contents key value }

unfoldable pub has_key : Blackboard → String → Bool
has_key b key = Dict.has b.contents key

unfoldable pub keys : Blackboard → List String
keys b = Dict.keys b.contents

unfoldable pub clear : Blackboard → Blackboard
clear b = record b { contents = [] }

unfoldable pub reset : Blackboard → Blackboard
reset b = new
