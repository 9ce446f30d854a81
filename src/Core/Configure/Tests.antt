-- ===== src/Core/Configure/Tests.antt =====
-- The theorem on `NewEngine` at a concrete configuration, and a configuration that it refuses.
use Prim.Native.Nat.{Ordering, compare}
use laredo.Common.{ℕ, String, ◌≡◌, refl, none, some, List, [], ◌∷◌, All, pos, comparable_string}
use laredo.Pipeline.{pipeline_initializing}
use laredo.Engine.Ack.{Compare}
use laredo.Core.{CoreEngine}
use laredo.Core.Configure.{
  TableIdentifier, EngineOption, with_source, with_pipeline, buffer_size_opt, apply_options,
  empty_config, bad_buffer_size, duplicate_id,
}
use laredo.Core.Configure.Validate.{build, new_engine}
use laredo.Core.Configure.Registered.{DistinctIds, Registered, new_engine-registers}

-- The comparison of a source: a position that is not there is before each that is.
abbrev compare_positions : Compare ℕ
compare_positions (some a) (some b) = compare a b
compare_positions none (some b) = Ordering.lt
compare_positions (some a) none = Ordering.gt
compare_positions none none = Ordering.eq

abbrev type_name : ℕ → String
type_name t = "memory.IndexedTarget"

abbrev users : TableIdentifier
users = record { schema = "public"; table = "users" }

abbrev orders : TableIdentifier
orders = record { schema = "public"; table = "orders" }

abbrev options : List (EngineOption ℕ ℕ)
options =
    with_source "s" (some compare_positions)
    ∷ with_pipeline "s" users (some 0) []
    ∷ with_pipeline "s" orders (some 0) (buffer_size_opt (pos 4) ∷ [])
    ∷ []

abbrev made : CoreEngine ℕ ℕ
made = build type_name (apply_options options empty_config)

new_engine-registers_example :
    ((new_engine type_name options).1 ≡ [])
    × DistinctIds made.pipelines
    × Registered type_name made.ack_tracker made.pipelines
    × All (λ p. p.state ≡ pipeline_initializing) made.pipelines
unfolding new_engine with_source with_pipeline buffer_size_opt
new_engine-registers_example = new_engine-registers type_name options made refl

-- The same pipeline twice, and a buffer that holds nothing.
refused :
    (new_engine type_name (
      with_source "s" (some compare_positions)
      ∷ with_pipeline "s" users (some 0) []
      ∷ with_pipeline "s" users (some 1) (buffer_size_opt (pos 0) ∷ [])
      ∷ [])).1
    ≡ bad_buffer_size 1 ∷ duplicate_id 1 "s:public.users:memory.IndexedTarget" ∷ []
unfolding new_engine with_source with_pipeline buffer_size_opt
refused = refl
