-- ===== src/Json.antt =====
-- JSON values, as `json.loads` and `resp.json()` return them.
use gitlab_copilot_agent.Prelude.{ℤ, Text, text_eq, codes, List, [], ◌∷◌, Bool, Option, none, some}
use gitlab_copilot_agent.Effects.{Result, ok, raised, other}
use gitlab_copilot_agent.Concurrency.OrderedDict.{lookup}

-- A `float` is kept by its spelling.
mutual
  pub data Json : Type 0 where
    null : Json
    bool : Bool → Json
    int : ℤ → Json
    float : Text → Json
    str : Text → Json
    array : Items → Json
    object : Fields → Json

  pub data Items : Type 0 where
    no_items : Items
    item : Json → Items → Items

  pub data Fields : Type 0 where
    no_fields : Fields
    field : Text → Json → Fields → Fields

unfoldable pub elements : Items → List Json
elements no_items = []
elements (item x xs) = x ∷ elements xs

unfoldable pub entries : Fields → List (Text × Json)
entries no_fields = []
entries (field k v fs) = (k, v) ∷ entries fs

-- `d.get(k)`
unfoldable pub get_field : Text → Fields → Option Json
get_field k fs = lookup k (entries fs)

-- `str(k)` for each key, and for each character of a text
key_items : List (Text × Json) → List Json
key_items [] = []
key_items ((k, v) ∷ fs) = str k ∷ key_items fs

char_items : Text → List Json
char_items [] = []
char_items (c ∷ s) = str (c ∷ []) ∷ char_items s

unfoldable pub not_iterable : Result (List Json)
not_iterable = raised (record { kind = other; message = codes "object is not iterable" })

-- `for item in value`
unfoldable pub iterate : Json → Result (List Json)
unfolding key_items char_items not_iterable
iterate (array xs) = ok (elements xs)
iterate (object fs) = ok (key_items (entries fs))
iterate (str s) = ok (char_items s)
iterate null = not_iterable
iterate (bool b) = not_iterable
iterate (int n) = not_iterable
iterate (float s) = not_iterable

-- `for item in d.get(k, [])`
unfoldable pub iterate_or : Option Json → Result (List Json)
iterate_or none = ok []
iterate_or (some value) = iterate value

unfoldable pub iterate_field : Text → Fields → Result (List Json)
unfolding iterate_or
iterate_field k fs = iterate_or (get_field k fs)

-- `isinstance(value, dict)`, with the dictionary
unfoldable pub as_object : Json → Option Fields
as_object (object fs) = some fs
as_object (array xs) = none
as_object null = none
as_object (bool b) = none
as_object (int n) = none
as_object (float s) = none
as_object (str s) = none

-- The dictionaries among the items.
unfoldable pub dicts : List Json → List Fields
dicts [] = []
dicts (object fs ∷ xs) = fs ∷ dicts xs
dicts (array ys ∷ xs) = dicts xs
dicts (null ∷ xs) = dicts xs
dicts (bool b ∷ xs) = dicts xs
dicts (int n ∷ xs) = dicts xs
dicts (float t ∷ xs) = dicts xs
dicts (str t ∷ xs) = dicts xs
