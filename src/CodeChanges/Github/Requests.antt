-- ===== src/CodeChanges/Github/Requests.antt =====
-- code_changes/publisher.py: the requests to GitHub's API. What GitHub answers is a parameter; it may
-- depend on all requests before. The headers that never change are left out.
use ai_hq.Prelude.{
  ℕ, String, Bool, true, false, ◌||◌, Option, none, some, List, [], ◌∷◌, ◌++◌, ltb, leb,
  if◌then◌else◌,
}
use Prim.Native.String.{◌++◌ as text_append}
use ai_hq.Prelude.Result.{Result, Exec, ok, err, runtime_error, attribute_error}
use ai_hq.Prelude.Checks.{◌>>=◌}
use ai_hq.Json.{Json, Fields, text, obj, get_field}
use ai_hq.Delivery.Identity.{is_git_sha}

pub data HttpMethod : Type 0 where
  get post : HttpMethod

pub record HttpRequest : Type 0 where
  pub method : HttpMethod
  pub url : String
  pub authorization : String
  pub body : Option Json

-- An `httpx.HTTPError`, or a status and the body, if it is JSON.
pub data HttpAnswer : Type 0 where
  broken : HttpAnswer
  response : ℕ → Option Json → HttpAnswer

-- A program that asks GitHub; its state is what has been asked, oldest first.
abbrev pub Asking : Type 0 → Type 0
Asking A = Exec (List HttpRequest) A

-- Something that asks nothing.
abbrev pub give : {A : Type 0} → Result A → Asking A
give r sent = (r, sent)

-- `if not test: raise RuntimeError(message)`
abbrev pub demand : {A : Type 0} → Bool → String → Result A → Result A
demand true message rest = rest
demand false message rest = err (runtime_error message)

unfoldable pub payload_of : Option Json → Result Fields
payload_of none = err (runtime_error "GitHub candidate publication returned invalid JSON")
payload_of (some (obj fields)) = ok fields
payload_of (some v) = err (runtime_error "GitHub candidate publication returned invalid payload")

-- What `_request` makes of an answer.
unfoldable pub answer_of : HttpAnswer → Result Fields
unfolding payload_of
answer_of broken = err (runtime_error "GitHub candidate publication request failed")
answer_of (response status body) =
    if ltb status 200 || leb 300 status
    then err (runtime_error "GitHub candidate publication request failed")
    else payload_of body

-- `_git_sha`
unfoldable pub git_sha : Option Json → String → Result String
unfolding is_git_sha
git_sha (some (text s)) name = demand (is_git_sha s) name (ok s)
git_sha _ name = err (runtime_error name)

-- `fields.get(key, {}).get("sha")`
unfoldable pub nested_sha : String → Fields → Result (Option Json)
unfolding get_field
nested_sha key fields = elim (get_field key fields) [
  | none ↦ ok none
  | some v ↦ (elim v [ obj inner ↦ ok (get_field "sha" inner) | _ ↦ err (attribute_error "get") ])
]

-- `_git_sha(fields.get(key, {}).get("sha"), name)`
unfoldable pub nested_git_sha : String → String → Fields → Result String
unfolding nested_sha git_sha
nested_git_sha key name fields = nested_sha key fields >>= λ sha. git_sha sha name

-- `_request`, with the token that the headers hold.
module _ (http : List HttpRequest → HttpRequest → HttpAnswer) (token : String) where
  abbrev pub request_to : HttpMethod → String → Option Json → HttpRequest
  request_to method url body = record {
    method = method;
    url = url;
    authorization = text_append "Bearer " token;
    body = body;
  }

  unfoldable pub request : HttpMethod → String → Option Json → Asking Fields
  unfolding answer_of
  request method url body sent =
      let r = request_to method url body in (answer_of (http sent r), sent ++ (r ∷ []))
