-- ===== src/ErrorFilter.antt =====
-- apps/coordination-hub/src/common/filters/http-exception.filter.ts: the envelope of an error response.
-- What the filter logs is not modelled; an exception's details are an opaque text.
pub mod Codes
use qr_blockchain_anticounte.Prelude.{
  ℕ, ◌-◌, Str, codes, ◌++◌, str_eq, Option, none, some, List, [], ◌∷◌, Bool, true, false, ◌&&◌,
  ◌||◌, leb, ◌==◌, map, get_or, length, if◌then◌else◌,
}
use qr_blockchain_anticounte.Errors.{Domain, code_of, status_of}
use qr_blockchain_anticounte.Dates.{decimal}

-- `message` of a response object: absent, one text or several
pub data HttpMessage : Type 0 where
  absent : HttpMessage
  one_text : Str → HttpMessage
  several : List Str → HttpMessage

-- `exception.getResponse()`
pub data HttpBody : Type 0 where
  text : Str → HttpBody
  fields : HttpMessage → (error : Option Str) → HttpBody
  nothing : HttpBody

pub data Thrown : Type 0 where
  domain_thrown : Domain → (message : Str) → (details : Option Str) → Thrown
  http_thrown : (status : ℕ) → HttpBody → Thrown
  error_thrown : (message : Str) → Thrown
  other_thrown : Thrown

pub record Envelope : Type 0 where
  pub status : ℕ
  pub code : Str
  pub message : Str
  pub details : Option Str
  pub request_id : Str

-- `toUpperCase()` on ASCII letters
unfoldable pub upper_case : Str → Str
upper_case s = map (λ c. if leb b'a' c && leb c b'z' then c - 32 else c) s

-- `\s` of a regular expression, for the units below 256
abbrev pub is_space : ℕ → Bool
is_space c = (leb 9 c && leb c 13) || (c == 32) || (c == 160)

-- `replace(/\s+/g, '_')`; the flag says that the last unit was a space
unfoldable pub underscored : (in_space : Bool) → Str → Str
underscored b [] = []
underscored b (c ∷ s) =
    let in_run = underscored true s in
    let outside = underscored false s in
    if is_space c then (if b then in_run else b'_' ∷ in_run) else c ∷ outside

-- `join('; ')`
unfoldable pub joined : List Str → Str
joined [] = []
joined (s ∷ []) = s
joined (s ∷ t ∷ ts) = s ++ (codes "; " ++ joined (t ∷ ts))

abbrev pub internal_error : Str
internal_error = codes "INTERNAL_ERROR"

abbrev pub internal_message : Str
internal_message = codes "Internal server error"

unfoldable pub http_message : HttpBody → Str
http_message (text s) = s
http_message (fields absent _) = internal_message
http_message (fields (one_text s) _) = s
http_message (fields (several ss) _) = joined ss
http_message nothing = internal_message

-- the code that the response names, if it names one
unfoldable pub http_code : HttpBody → Str
http_code (fields _ (some (c ∷ s))) = underscored false (upper_case (c ∷ s))
http_code _ = internal_error

-- `catch`, without its logging. An empty header counts as given.
unfoldable pub respond : Thrown → (request_id : Option Str) → Envelope
respond (domain_thrown d message details) request_id = record {
  status = status_of d;
  code = code_of d;
  message = message;
  details = details;
  request_id = get_or (codes "unknown") request_id;
}
respond (http_thrown status body) request_id = record {
  status = status;
  code =
      if str_eq (http_code body) internal_error
      then codes "HTTP_" ++ decimal status
      else http_code body;
  message = http_message body;
  details = none;
  request_id = get_or (codes "unknown") request_id;
}
respond (error_thrown _) request_id = record {
  status = 500;
  code = internal_error;
  message = internal_message;
  details = none;
  request_id = get_or (codes "unknown") request_id;
}
respond other_thrown request_id = record {
  status = 500;
  code = internal_error;
  message = internal_message;
  details = none;
  request_id = get_or (codes "unknown") request_id;
}
