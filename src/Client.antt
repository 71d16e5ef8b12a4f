-- ===== src/Client.antt =====
-- web/src/api/client.ts: the request that a call sends, and what it makes of the answer.
pub mod Laws
use card_scope.Base.{
  ℕ, Bool, true, false, not, ◌&&◌, List, [], ◌∷◌, ◌++◌, Option, none, some, String, or_text, ◌&◌,
  ◌==◌, nat_eq, if◌then◌else◌,
}

-- What `fetch` is given; a body that is left out is undefined.
pub record Request {ℓ} (B : Type ℓ) : Type ℓ where
  pub url : String
  pub method : String
  pub headers : List (String × String)
  pub body : Option B

-- The answer: its status, whether that is a success (`r.ok`), and the JSON that it holds, which is
-- the data, or a record with the text `error` (empty if it has none).
pub record Response {ℓ} (A : Type ℓ) : Type ℓ where
  pub ok : Bool
  pub status : ℕ
  pub content : A
  pub error : String

-- A promise of data that is kept, or rejected with an error's message.
pub data Result {ℓ} (A : Type ℓ) : Type ℓ where
  value : A → Result A
  failed : String → Result A

module _ {ℓ} {B : Type ℓ} where
  unfoldable pub request : String → String → String → Option B → Request B
  request csrf path method body = record {
    url = "/api/v1" & path;
    method = method;
    headers =
        ("Content-Type", "application/json")
        ∷ (if csrf == "" then [] else ("X-CSRF-Token", csrf) ∷ []);
    body = body;
  }

module _ {ℓ} {A : Type ℓ} where
  -- The outcome of a call, and whether it raises the event "auth-expired".
  unfoldable pub settle : String → Response A → Result A × Bool
  settle path r =
      if r.ok
      then (value r.content, false)
      else (failed (or_text r.error "请求失败"), nat_eq r.status 401 && not (path == "/login"))
