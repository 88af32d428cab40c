-- ===== src/Http/Credentials.antt =====
-- common/guards/api-key.guard.ts, common/guards/jwt-auth.guard.ts and
-- identity/infrastructure/jwt/jwt.strategy.ts. Whether the route is marked `@Public()` is an
-- argument, and so is the verdict of the passport library.
use multi_tenant_saa_s_platf.Base.{
  ◌≡◌, refl, ◌↔◌, inl, inr, Bool, true, false, not, ◌&&◌, Option, none, some, [], ◌∷◌, ◌++◌, Text,
  codes, Result, ok, fail, Exception, unauthorized, arith, ◌==◌, ==_iff, is_truthy, drop, throw_if,
  ◌>>◌, if◌then◌else◌, any, Bool-cases,
}

-- `s.startsWith(p)`
unfoldable pub starts_with : Text → Text → Bool
starts_with [] s = true
starts_with (c ∷ p) [] = false
starts_with (c ∷ p) (d ∷ s) = c == d && starts_with p s

pub record AuthHeaders : Type 0 where
  pub x_api_key : Option Text
  pub authorization : Option Text

-- `headers['authorization']?.startsWith('Bearer ak_')`, and `substring(7)`
unfoldable pub from_authorization : Option Text → Option Text
unfolding starts_with codes
from_authorization none = none
from_authorization (some h) = if starts_with (codes "Bearer ak_") h then some (drop 7 h) else none

-- `extractApiKey`; an empty `x-api-key` counts as absent.
unfoldable pub extract_api_key : AuthHeaders → Option Text
unfolding from_authorization
extract_api_key headers = elim headers.x_api_key [
  | none ↦ from_authorization headers.authorization
  | some key ↦ if is_truthy key then some key else from_authorization headers.authorization
]

unfoldable pub is_valid_format : Text → Bool
unfolding starts_with codes
is_valid_format key = starts_with (codes "ak_") key && any (λ c. c == b'.') key

-- `ApiKeyGuard.canActivate`
unfoldable pub can_activate : Bool → AuthHeaders → Result Bool
can_activate true headers = ok true
can_activate false headers = elim (extract_api_key headers) [
  | none ↦ ok false
  | some key ↦
      throw_if (not (is_valid_format key))
        (unauthorized (record { template = "Malformed API key format"; values = [] }))
      >> ok true
]

-- `JwtAuthGuard.handleRequest`, on the error and the user that passport found
unfoldable pub handle_request {ℓ} : {A : Type ℓ} → Option Exception → Option A → Result A
handle_request (some err) user = fail err
handle_request none none =
    fail (unauthorized (record { template = "Invalid or expired token"; values = [] }))
handle_request none (some user) = ok user

pub data TokenType : Type 0 where
  access refresh : TokenType

-- The claims of a verified token.
pub record JwtPayload : Type 0 where
  pub sub : Text
  pub email : Option Text
  pub tenant_id : Text
  pub role : Option Text
  pub type : TokenType

-- `JwtStrategy.validate`
unfoldable pub validate : JwtPayload → Result JwtPayload
validate payload = elim payload.type [
  | access ↦ ok payload
  | refresh ↦ fail (unauthorized (record { template = "Invalid token type"; values = [] }))
]

starts_with_iff : (p s : Text) → (starts_with p s ≡ true) ↔ ((rest : Text) × (s ≡ p ++ rest))
unfolding starts_with
starts_with_iff [] s = (λ h. (s, refl), λ h. refl)
starts_with_iff (c ∷ p) [] = (λ h. cc, λ (rest, e). cc)
starts_with_iff (c ∷ p) (d ∷ s) =
    let (to, from) = starts_with_iff p s in
    (
      λ h. let (rest, e) = to (ground arith) in (rest, ground (arith, ==_iff c d)),
      λ (rest, e). ground (arith, from (rest, ground arith), ==_iff c d),
    )

any-dot : (s : Text) → any (λ c. c == b'.') s ≡ true → (u : Text) × (v : Text) × (s ≡ u ++ b'.' ∷ v)
any-dot [] h = cc
any-dot (c ∷ s) h = elim (Bool-cases (c == b'.')) [
  | inl dot ↦ ([], s, ground (arith, ==_iff c b'.'))
  | inr other ↦ let (u, v, e) = any-dot s (ground arith) in (c ∷ u, v, cc)
]

dot-any : (u v : Text) → any (λ c. c == b'.') (u ++ b'.' ∷ v) ≡ true
dot-any [] v = refl
dot-any (c ∷ u) v = ground (arith, dot-any u v)

abbrev pub HasFormat : Text → Type 0
HasFormat key =
    ((rest : Text) × (key ≡ codes "ak_" ++ rest))
    × ((u : Text) × (v : Text) × (key ≡ u ++ b'.' ∷ v))

is_valid_format_iff : (key : Text) → (is_valid_format key ≡ true) ↔ HasFormat key
unfolding is_valid_format
is_valid_format_iff key =
    let (to, from) = starts_with_iff (codes "ak_") key in
    (
      λ h. (to (ground arith), any-dot key (ground arith)),
      λ (prefix, (u, v, e)).
          let front = from prefix in
          let dot : any (λ c. c == b'.') key ≡ true = rw e (dot-any u v) in ground arith,
    )

can_activate_test :
    (headers : AuthHeaders)
    → (can_activate false headers ≡ ok true)
      ↔ ((key : Text) × (extract_api_key headers ≡ some key) × (is_valid_format key ≡ true))
unfolding can_activate
can_activate_test headers = ground arith

-- On a route that is not public the API key guard lets a request through exactly when a key is
-- found in its headers that begins with "ak_" and holds a dot.
pub key-can_activate_iff :
    (headers : AuthHeaders)
    → (can_activate false headers ≡ ok true)
      ↔ ((key : Text) × (extract_api_key headers ≡ some key) × HasFormat key)
key-can_activate_iff headers =
    let (to, from) = can_activate_test headers in
    (
      λ h. let (key, e, fits) = to h in (key, e, (is_valid_format_iff key).0 fits),
      λ (key, e, format). from (key, e, (is_valid_format_iff key).1 format),
    )
