-- ===== src/SchemaTool/JsonExamples.antt =====
-- The theorems on JSON pointers at concrete inputs, and tests
-- (rust/crates/schema-tool/src/json_pointer.rs).
use shittim.Base.{List, [], ◌∷◌, ok, err, ◌≡◌, ◌⊎◌, refl, Text, codes}
use shittim.Contracts.Json.{
  Json, null, number, array, object, empty_array, item, empty_object, member,
}
use shittim.SchemaTool.JsonPointer.{
  JsonPointer, add, replace, pointer_syntax, mutation, decoded_segments, parse,
  from_decoded_segments, child, index,
}
use shittim.SchemaTool.JsonPointer.RoundTrip.{parse-decoded_segments}
use shittim.SchemaTool.JsonDocument.{parse_array_index_token, leading_zero}
use shittim.SchemaTool.JsonMutation.{select_json_value, apply_json_mutation}
use shittim.SchemaTool.JsonMutation.Select.{select_json_value-apply_json_mutation}

-- The pointers of the tests of the source.
sample_child :
    child (child (child [] (codes "properties")) (codes "a/b")) (codes "c~d")
    ≡ codes "/properties/a~1b/c~0d"
unfolding child
sample_child = refl

sample_index : index (child [] (codes "oneOf")) 10 ≡ codes "/oneOf/10"
unfolding index
sample_index = refl

sample_bad_escape : parse (codes "/a~2") ≡ err (pointer_syntax (codes "/a~2"))
unfolding parse
sample_bad_escape = refl

sample_leading_zero : parse_array_index_token (codes "01") ≡ err leading_zero
unfolding parse_array_index_token
sample_leading_zero = refl

abbrev one_array : Json → Json
one_array value = object (
    member (codes "array") (array (item (number (codes "1")) (item value empty_array)))
      empty_object)

abbrev second_place : JsonPointer
second_place = codes "/array/1"

sample_replace :
    apply_json_mutation (one_array (number (codes "3"))) replace second_place null
    ≡ ok (one_array null)
unfolding apply_json_mutation
sample_replace = refl

-- A failure below an array names the token at which it stands.
sample_token_index :
    apply_json_mutation (one_array null) replace (codes "/array/01/value") null
    ≡ err (mutation replace (codes "/array/01/value") 2)
unfolding apply_json_mutation
sample_token_index = refl

parse-decoded_segments_example :
    ((codes "/a~1b/c~0d" ≡ codes "/a~1b/c~0d")
      × (segments : List Text) × (decoded_segments (codes "/a~1b/c~0d") ≡ ok segments)
      × (from_decoded_segments segments ≡ codes "/a~1b/c~0d"))
    × (parse (from_decoded_segments (codes "x/y" ∷ []))
        ≡ ok (from_decoded_segments (codes "x/y" ∷ [])))
    × (decoded_segments (from_decoded_segments (codes "x/y" ∷ [])) ≡ ok (codes "x/y" ∷ []))
unfolding parse
parse-decoded_segments_example =
    parse-decoded_segments (codes "/a~1b/c~0d") (codes "/a~1b/c~0d") (codes "x/y" ∷ []) refl

select_json_value-apply_json_mutation_example :
    (select_json_value (one_array null) second_place ≡ ok null)
    × ((replace ≡ add)
        ⊎ ((old : Json) × (select_json_value (one_array (number (codes "3"))) second_place
              ≡ ok old)))
select_json_value-apply_json_mutation_example =
    select_json_value-apply_json_mutation (one_array (number (codes "3"))) (one_array null) null
      replace second_place sample_replace
