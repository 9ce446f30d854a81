-- ===== src/Builtins/Tests.antt =====
-- Runs of the built-in transforms.
use laredo.Common.{◌≡◌, refl, some, [], ◌∷◌, get, comparable_string}
use laredo.Types.{text, other}
use laredo.Builtins.{drop_fields, rename_fields, add_timestamp}

-- A field that takes the name of another: the one that the iteration meets last stays.
renamed_last :
    get (rename_fields (("a", "b") ∷ []) (("b", text "2") ∷ ("a", text "1") ∷ [])) "b"
    ≡ some (text "1")
unfolding rename_fields
renamed_last = refl

renamed_first :
    get (rename_fields (("a", "b") ∷ []) (("a", text "1") ∷ ("b", text "2") ∷ [])) "b"
    ≡ some (text "2")
unfolding rename_fields
renamed_first = refl

dropped_and_stamped :
    add_timestamp "at" (other 5) (drop_fields ("b" ∷ []) (("a", text "1") ∷ ("b", text "2") ∷ []))
    ≡ ("a", text "1") ∷ ("at", other 5) ∷ []
unfolding drop_fields add_timestamp
dropped_and_stamped = refl
