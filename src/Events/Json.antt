-- ===== src/Events/Json.antt =====
-- The payload of an event: a JSON object (src/omegahive/events/envelope.py, `payload: dict`).
use Prim.Native.Char.{code}
use omegahive.Base.{
  String, Bool, true, false, ◌&&◌, Option, none, some, eqb, ◌==◌, if◌then◌else◌, ℤ, pos, negsuc,
  is_space,
}

mutual
  pub data Json : Type 0 where
    null : Json
    flag : Bool → Json
    int : ℤ → Json
    -- a number that is not an integer, by its text
    real : String → Json
    text : String → Json
    arr : Items → Json
    obj : Fields → Json

  pub data Items : Type 0 where
    nil : Items
    cons : Json → Items → Items

  pub data Fields : Type 0 where
    end : Fields
    field : String → Json → Fields → Fields

abbrev pub Payload : Type 0
Payload = Fields

-- `payload.get(key)`
unfoldable pub get_field : String → Payload → Option Json
get_field k end = none
get_field k (field j v fs) = if j == k then some v else get_field k fs

abbrev pub as_text : Option Json → Option String
as_text (some (text s)) = some s
as_text _ = none

abbrev pub as_int : Option Json → Option ℤ
as_int (some (int i)) = some i
as_int _ = none

-- The text under a key. A value of another kind reads as absent: compared with texts, or looked
-- for in a set of texts, the two answer alike.
unfoldable pub get_text : String → Payload → Option String
get_text k p = as_text (get_field k p)

unfoldable pub get_int : String → Payload → Option ℤ
get_int k p = as_int (get_field k p)

-- `refs = payload.get(key) or []`, then `refs[0]["ref"] if refs else None`; the outer `none` is
-- the exception on a first item with no text under "ref".
abbrev pub ref_of : Json → Option (Option String)
ref_of (obj fs) = elim (get_text "ref" fs) [ none ↦ none | some r ↦ some (some r) ]
ref_of _ = none

abbrev pub head_ref : Option Json → Option (Option String)
head_ref (some (arr (cons j js))) = ref_of j
head_ref _ = some none

unfoldable pub first_ref : Payload → Option (Option String)
first_ref p = head_ref (get_field "artifact_refs" p)

-- `not s.strip()`
unfoldable pub is_blank : String → Bool
unfolding is_space
is_blank String.[] = true
is_blank (String.◌∷◌ c s) = is_space (code c) && is_blank s

abbrev pub as_json : Option String → Json
as_json none = null
as_json (some s) = text s

abbrev int_eq : ℤ → ℤ → Bool
int_eq (pos m) (pos n) = eqb m n
int_eq (negsuc m) (negsuc n) = eqb m n
int_eq _ _ = false

abbrev flag_eq : Bool → Bool → Bool
flag_eq true b = b
flag_eq false true = false
flag_eq false false = true

-- Equality of payloads that list their keys in one order, as those of typed ops do.
unfoldable mutual
  pub json_eq : Json → Json → Bool
  json_eq null null = true
  json_eq (flag a) (flag b) = flag_eq a b
  json_eq (int a) (int b) = int_eq a b
  json_eq (real a) (real b) = a == b
  json_eq (text a) (text b) = a == b
  json_eq (arr a) (arr b) = items_eq a b
  json_eq (obj a) (obj b) = fields_eq a b
  json_eq _ _ = false

  pub items_eq : Items → Items → Bool
  items_eq nil nil = true
  items_eq (cons a xs) (cons b ys) = json_eq a b && items_eq xs ys
  items_eq _ _ = false

  pub fields_eq : Fields → Fields → Bool
  fields_eq end end = true
  fields_eq (field j a fs) (field k b gs) = j == k && (json_eq a b && fields_eq fs gs)
  fields_eq _ _ = false
