-- ===== src/Auth/Samples.antt =====
-- Concrete parameters for the tests of the authenticator: addresses that are texts, exact amounts in place
-- of float64, and a codec in place of encoding/json: each character is one more, and 0 ends a field.
use mathlib.Core.Option.{some-injective}
use xktmcp.Prelude.Split.{onto_first}
use mathlib.Core.Path.{subst}
use xktmcp.Lru.Assoc.{has, IsMap, lookup}
use xktmcp.Auth.Rpc.Bound.{mapped, IsJson}
use xktmcp.Auth.Rpc.{and_then, Json, Object}
use xktmcp.Prelude.Text.{Text}
use xktmcp.Auth.Limiter.{IsFloat, Float}
use xktmcp.Auth.Address.{Net}
use xktmcp.Prelude.{
  ◌∙◌, ◌&&◌, leb, inl, ltb, inr, not, ◌*◌, refl, sym, Bool-cases, ap, true, [], ◌-◌, ◌==◌, ◌≡◌,
  some, if◌then◌else◌, Bool, ◌∷◌, arith, ◌+◌, none, Option, List, nat_eq, list_eq, ℕ, zero, suc,
}

abbrev pub exact_net : Net
exact_net = record {
  Ip = Text;
  Cidr = Text;
  split_host = λ addr. none;
  parse_ip = λ t. if t == [] then none else some t;
  parse_cidr = λ t. if t == [] then none else some t;
  contains = λ network ip. network == ip;
}

abbrev pub exact_float : Float
exact_float = record {
  Amount = ℕ;
  of_int = λ n. n;
  add = λ x y. x + y;
  decrement = λ x. x - 1;
  earned = λ elapsed rps. elapsed * rps;
  exceeds = λ x y. ltb y x;
  at_least_one = λ x. leb 1 x;
  at_most_zero = λ x. leb x 0;
  is_finite = λ x. true;
}

pub exact-IsFloat : IsFloat exact_float
exact-IsFloat = record {
  exceeds_self = λ x. ground arith;
  exceeds-decrement = λ x m h. ground (arith, h);
  earned_zero = λ n rate _ _. ground arith;
  exceeds-of_int = λ m n _ _. refl;
  one-of_int = λ n _. refl;
  decrement-of_int = λ n _. omega arith;
}

-- A field: its characters, and the end.
abbrev pub field : Text → Text → Text
field [] s = 0 ∷ s
field (c ∷ k) s = suc c ∷ field k s

abbrev pub encode : Object → Text
encode [] = []
encode ((k, v) ∷ m) = field k (field v (encode m))

abbrev pub fields : Text → List Text
fields [] = [] ∷ []
fields (zero ∷ s) = [] ∷ fields s
fields (suc c ∷ s) = onto_first c (fields s)

abbrev pub paired : List Text → Option Object
paired [] = none
paired ([] ∷ []) = some []
paired ((c ∷ k) ∷ []) = none
paired (k ∷ v ∷ rest) = and_then (paired rest) (λ m. some ((k, v) ∷ m))

-- No key stands twice.
abbrev pub is_unique : Object → Bool
is_unique [] = true
is_unique ((k, v) ∷ m) = not (has k m) && is_unique m

abbrev pub only_unique : Object → Option Object
only_unique m = if is_unique m then some m else none

abbrev pub decode : Text → Option Object
decode raw = and_then (paired (fields raw)) only_unique

abbrev pub exact_json : Json
exact_json = record {
  decode_object = decode;
  decode_string = λ raw. some raw;
  encode_object = λ m. if is_unique m then some (encode m) else none;
  encode_string = λ s. some s;
}

fields-field : (k s : Text) → fields (field k s) ≡ k ∷ fields s
fields-field [] s = refl
fields-field (c ∷ k) s = ap (onto_first c) (fields-field k s)

paired-encode : (m : Object) → paired (fields (encode m)) ≡ some m
paired-encode [] = refl
paired-encode ((k, v) ∷ m) =
    rw (fields-field k (field v (encode m)))
      (rw (fields-field v (encode m)) (rw (paired-encode m) refl))

is_unique-IsMap : (m : Object) → is_unique m ≡ true → IsMap m
is_unique-IsMap [] h = tt
is_unique-IsMap ((k, v) ∷ m) h = (ground (arith, h), is_unique-IsMap m (ground (arith, h)))

mapped_same : (o : Option Text) → o ≡ mapped (λ raw. raw) o
mapped_same none = refl
mapped_same (some t) = refl

decode-IsMap : (o : Option Object) (m : Object) → and_then o only_unique ≡ some m → IsMap m
decode-IsMap none m h = absurd (ground (arith, h))
decode-IsMap (some n) m h = elim (Bool-cases (is_unique n)) [
  | inr twice ↦ absurd (ground (arith, h, twice))
  | inl once ↦ subst IsMap (some-injective _ _ (ground (arith, h, once))) (is_unique-IsMap n once)
]

decode-encode :
    (m : Object) (raw : Text) → exact_json.encode_object m ≡ some raw → decode raw ≡ some m
decode-encode m raw h = elim (Bool-cases (is_unique m)) [
  | inr twice ↦ absurd (ground (arith, h, twice))
  | inl once ↦
      let same : encode m ≡ raw = some-injective _ _ (ground (arith, h, once)) in
      ap decode (sym same) ∙ rw (paired-encode m) (ground (arith, once))
]

pub exact-IsJson : IsJson exact_json
exact-IsJson = record {
  compact = λ raw. raw;
  decoded_keys = λ raw m h. decode-IsMap (paired (fields raw)) m h;
  object_again = λ m raw h. (m, decode-encode m raw h, λ key. mapped_same (lookup key m));
  compact_object = λ m raw h. refl;
  compact_string = λ s raw h. refl;
  string_of_compact = λ raw. refl;
  string_again = λ s raw h. sym h;
}
