-- ===== src/Client/Laws.antt =====
-- The errors and headers of web/src/api/client.ts.
use card_scope.Base.{
  ◌≡◌, ◌≢◌, ◌↔◌, true, false, none, some, Option, String, arith, lookup, eq_iff, ◌==◌,
  if◌then◌else◌,
}
use card_scope.Client.{request, Response, value, failed, settle}

-- The event "auth-expired" is raised exactly when an answer with status 401 is no success and was
-- not given to a sign-in; and a failed call always has a message.
pub settle_lem {ℓ} :
    {A : Type ℓ} (path : String) (r : Response A)
    → (((settle path r).1 ≡ true) ↔ ((r.ok ≡ false) × (r.status ≡ 401) × (path ≢ "/login")))
      × ((m : String) → (settle path r).0 ≡ failed m → m ≢ "")
      × ((x : A) → (settle path r).0 ≡ value x → r.ok ≡ true)
unfolding settle
settle_lem path r = (
  (λ h. ground (arith, eq_iff path "/login"), λ h. ground (arith, eq_iff path "/login")),
  λ m h e. ground (arith, eq_iff r.error "", eq_iff "请求失败" ""),
  λ x h. ground arith,
)

-- A request carries the session's token exactly when there is one.
pub request-token {ℓ} :
    {B : Type ℓ} (csrf path method : String) (body : Option B)
    → lookup "X-CSRF-Token" (request csrf path method body).headers
      ≡ (if csrf == "" then none else some csrf)
unfolding request
request-token csrf path method body = ground arith
