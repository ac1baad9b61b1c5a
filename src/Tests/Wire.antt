-- ===== src/Tests/Wire.antt =====
-- A wire format with the documented round trip, for the tests: fields one after the other, with
-- lengths in front.
use go_reverse_rpc.Base.{
  ℕ, zero, suc, ℤ, pos, negsuc, ◌≡◌, refl, ap, ◌∙◌, Option, none, some, List, [], ◌∷◌, Bytes,
  length,
}
use go_reverse_rpc.Mqttpb.Messages.{
  FaithfulRequests, FaithfulResponses, Any, Request, Response, Wire, done, canonical_body,
  canonical_request, canonical_response, drop_empty,
}

-- Something that is put in front of bytes, and got back from there.
pub record Format (A : Type 0) : Type 0 where
  pub put : A → Bytes → Bytes
  pub get : Bytes → A × Bytes
  pub back : (a : A) (rest : Bytes) → get (put a rest) ≡ (a, rest)

abbrev get_number : Bytes → ℕ × Bytes
get_number [] = (0, [])
get_number (n ∷ rest) = (n, rest)

abbrev pub number : Format ℕ
number = record { put = λ n rest. n ∷ rest; get = get_number; back = λ n rest. refl }

abbrev put_integer : ℤ → Bytes → Bytes
put_integer (pos n) rest = 0 ∷ n ∷ rest
put_integer (negsuc n) rest = 1 ∷ n ∷ rest

abbrev get_integer : Bytes → ℤ × Bytes
get_integer (zero ∷ n ∷ rest) = (pos n, rest)
get_integer (suc _ ∷ n ∷ rest) = (negsuc n, rest)
get_integer _ = (pos 0, [])

pub integer_back : (a : ℤ) (rest : Bytes) → get_integer (put_integer a rest) ≡ (a, rest)
integer_back (pos n) rest = refl
integer_back (negsuc n) rest = refl

abbrev pub integer : Format ℤ
integer = record { put = put_integer; get = get_integer; back = integer_back }

module _ {A : Type 0} (f : Format A) where
  abbrev put_each : List A → Bytes → Bytes
  put_each [] rest = rest
  put_each (x ∷ xs) rest = f.put x (put_each xs rest)

  abbrev get_each : ℕ → Bytes → List A × Bytes
  get_each zero rest = ([], rest)
  get_each (suc n) rest =
      let (x, rest') = f.get rest in let (xs, rest'') = get_each n rest' in (x ∷ xs, rest'')

  pub each_back :
      (xs : List A) (rest : Bytes) → get_each (length xs) (put_each xs rest) ≡ (xs, rest)
  each_back [] rest = refl
  each_back (x ∷ xs) rest = rw (f.back x (put_each xs rest)) (rw (each_back xs rest) refl)

  abbrev get_list : Bytes → List A × Bytes
  get_list [] = ([], [])
  get_list (n ∷ rest) = get_each n rest

  abbrev pub list : Format (List A)
  list = record { put = λ xs rest. length xs ∷ put_each xs rest; get = get_list; back = each_back }

  abbrev put_optional : Option A → Bytes → Bytes
  put_optional none rest = 0 ∷ rest
  put_optional (some x) rest = 1 ∷ f.put x rest

  abbrev get_optional : Bytes → Option A × Bytes
  get_optional [] = (none, [])
  get_optional (zero ∷ rest) = (none, rest)
  get_optional (suc _ ∷ rest) = let (x, rest') = f.get rest in (some x, rest')

  pub optional_back : (x : Option A) (rest : Bytes) → get_optional (put_optional x rest) ≡ (x, rest)
  optional_back none rest = refl
  optional_back (some x) rest = rw (f.back x rest) refl

  abbrev pub optional : Format (Option A)
  optional = record { put = put_optional; get = get_optional; back = optional_back }

module _ {A B : Type 0} (f : Format A) (g : Format B) where
  abbrev get_both : Bytes → (A × B) × Bytes
  get_both bytes = let (x, rest) = f.get bytes in let (y, rest') = g.get rest in ((x, y), rest')

  pub both_back : (p : A × B) (rest : Bytes) → get_both (f.put (p.0) (g.put (p.1) rest)) ≡ (p, rest)
  both_back (x, y) rest = rw (f.back x (g.put y rest)) (rw (g.back y rest) refl)

  abbrev pub both : Format (A × B)
  both = record { put = λ p rest. f.put (p.0) (g.put (p.1) rest); get = get_both; back = both_back }

abbrev pub text : Format Bytes
text = list number

abbrev any_fields : Format (Bytes × Option Bytes)
any_fields = both text (optional text)

abbrev Fields : Type 0
Fields = ℕ × (Bytes × (ℤ × (List (Bytes × Bytes) × Option (Bytes × Option Bytes))))

abbrev fields : Format Fields
fields = both number (both text (both integer (both (list (both text text)) (optional any_fields))))

abbrev from_body : Option Any → Option (Bytes × Option Bytes)
from_body none = none
from_body (some body) = some (body.type_url, drop_empty body.value)

abbrev to_body : Option (Bytes × Option Bytes) → Option Any
to_body none = none
to_body (some (type_url, value)) = some (record { type_url = type_url; value = value })

abbrev encode_request : Request → Bytes
encode_request m = fields.put (m.id, (m.method, (m.encoding, (m.metadata, from_body m.body)))) []

abbrev to_request : Fields → Request
to_request (id, (method, (encoding, (metadata, body)))) = record {
  id = id;
  method = method;
  encoding = encoding;
  metadata = metadata;
  body = to_body body;
}

abbrev pub request_wire : Wire Request
request_wire = record {
  marshal = λ m. done (encode_request m);
  unmarshal = λ bytes. (to_request ((fields.get bytes).0), none);
}

body_back : (body : Option Any) → to_body (from_body body) ≡ canonical_body body
body_back none = refl
body_back (some body) = refl

request_back : (m : Request) → to_request ((fields.get (encode_request m)).0) ≡ canonical_request m
request_back m =
    ap (λ (p : Fields × Bytes). to_request (p.0))
      (fields.back (m.id, (m.method, (m.encoding, (m.metadata, from_body m.body)))) [])
    ∙ ap (λ (body : Option Any). record m { body = body }) (body_back m.body)

pub request_wire-Faithful : FaithfulRequests request_wire
request_wire-Faithful = record {
  encoded = encode_request;
  marshals = λ m w. refl;
  unmarshals = λ m w. (m.metadata, ap (λ (m : Request). (m, none)) (request_back m), λ k. refl);
}

-- A response is sent as a request for its error text, with its status in front.
abbrev response_fields : Format (ℤ × Fields)
response_fields = both integer fields

abbrev encode_response : Response → Bytes
encode_response m =
    response_fields.put
      (m.status, (m.id, (m.error_message, (m.encoding, (m.metadata, from_body m.body))))) []

abbrev to_response : ℤ × Fields → Response
to_response (status, (id, (error_message, (encoding, (metadata, body))))) = record {
  id = id;
  status = status;
  error_message = error_message;
  encoding = encoding;
  metadata = metadata;
  body = to_body body;
}

abbrev pub response_wire : Wire Response
response_wire = record {
  marshal = λ m. done (encode_response m);
  unmarshal = λ bytes. (to_response ((response_fields.get bytes).0), none);
}

response_back :
    (m : Response)
    → to_response ((response_fields.get (encode_response m)).0) ≡ canonical_response m
response_back m =
    ap (λ (p : (ℤ × Fields) × Bytes). to_response (p.0))
      (response_fields.back
        (m.status, (m.id, (m.error_message, (m.encoding, (m.metadata, from_body m.body))))) [])
    ∙ ap (λ (body : Option Any). record m { body = body }) (body_back m.body)

pub response_wire-Faithful : FaithfulResponses response_wire
response_wire-Faithful = record {
  encoded = encode_response;
  marshals = λ m w. refl;
  unmarshals = λ m w. (m.metadata, ap (λ (m : Response). (m, none)) (response_back m), λ k. refl);
}
