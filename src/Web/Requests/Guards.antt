-- ===== src/Web/Requests/Guards.antt =====
-- What a scan that is started has passed.
use rain_scanner.Base.{
  ◌≡◌, ◌≤◌, refl, ap, subst, Bool, true, false, ◌||◌, [], ◌∷◌, ◌++◌, Option, none, some, leb,
  leb→le, Text, codes, text_eq, text_eq_iff, is_empty, length, Result, ok, err, require-true,
  require-bind, or_error, arith, Yields, Yields-bind, ok_injective, ◌⊎◌, is_ok, Bool-cases, inl,
  inr, require, ◌>>=◌,
}
use rain_scanner.App.{ScanRequest}
use rain_scanner.Web.Requests.{
  Rejection, Headers, guard_mutation, all_valid, has_cidrs, has_target, Call, check_scan, start,
  handle_scan,
}

-- What the guard against cross-site requests lets through.
abbrev pub SameOrigin : Headers → Type 0
SameOrigin h =
    (h.origin ≡ [])
    ⊎ ((h.origin ≡ codes "http://" ++ h.host) ⊎ (h.origin ≡ codes "https://" ++ h.host))

-- No content type, or JSON's.
abbrev pub IsJson : (Text → Option Text) → Headers → Type 0
IsJson media_of h =
    (h.content_type ≡ []) ⊎ (media_of h.content_type ≡ some (codes "application/json"))

-- What holds of a request that is scanned.
pub record IsScannable (c : Call) (req : ScanRequest) : Type 0 where
  pub posted : c.post ≡ true
  pub same_origin : SameOrigin c.headers
  pub json : IsJson c.media_of c.headers
  pub decoded : c.body ≡ some req
  pub few_ports : length req.ports ≤ 64
  pub ports_valid : all_valid req.ports ≡ true
  pub targeted : has_target req ≡ true
  pub some_cidrs : has_cidrs req.custom ≡ true

pub guard_mutation-SameOrigin :
    (media_of : Text → Option Text) (h : Headers) (u : Unit {0})
    → guard_mutation media_of h ≡ ok u
    → SameOrigin h
unfolding guard_mutation
guard_mutation-SameOrigin media_of h u e = ground (
  arith,
  require-bind
      (is_empty h.origin
        || (text_eq h.origin (codes "http://" ++ h.host)
            || text_eq h.origin (codes "https://" ++ h.host)))
      _ _ e,
  text_eq_iff h.origin (codes "http://" ++ h.host),
  text_eq_iff h.origin (codes "https://" ++ h.host),
)

is_empty→nil : (t : Text) → is_empty t ≡ true → t ≡ []
is_empty→nil [] h = refl
is_empty→nil (c ∷ t) h = cc

require_second :
    (a b : Bool) (x y : Rejection) (u : Unit {0})
    → ◌≡◌ {A = Result Rejection (Unit {0})} (require a x >>= λ _. require b y) (ok u)
    → b ≡ true
unfolding ◌>>=◌
require_second true true x y u h = refl
require_second true false x y u h = cc
require_second false b x y u h = cc

abbrev is_json : Option Text → Bool
is_json none = false
is_json (some mt) = text_eq mt (codes "application/json")

is_json_lem : (o : Option Text) → is_json o ≡ true → o ≡ some (codes "application/json")
is_json_lem none h = cc
is_json_lem (some mt) h = ap some ((text_eq_iff mt (codes "application/json")).0 h)

pub guard_mutation-IsJson :
    (media_of : Text → Option Text) (h : Headers) (u : Unit {0})
    → guard_mutation media_of h ≡ ok u
    → IsJson media_of h
unfolding guard_mutation
guard_mutation-IsJson media_of h u e =
    let passed =
      require_second
        (is_empty h.origin
          || (text_eq h.origin (codes "http://" ++ h.host)
              || text_eq h.origin (codes "https://" ++ h.host)))
        _ _ _ u e in
    elim (Bool-cases (is_empty h.content_type)) [
      | inl none_given ↦ inl (is_empty→nil h.content_type none_given)
      | inr given ↦ inr (is_json_lem (media_of h.content_type) (ground (arith, passed)))
    ]

or_error-some :
    {A : Type 0} (o : Option A) (x : Rejection) (a : A) → or_error o x ≡ ok a → o ≡ some a
or_error-some (some b) x a h = ap some (ok_injective h)
or_error-some none x a h = cc

check_scan-IsScannable : (c : Call) → Yields (IsScannable c) (check_scan c)
unfolding check_scan
check_scan-IsScannable c = Yields-bind _ _ _ λ _ post. Yields-bind _ _ _ λ _ guard.
    Yields-bind _ _ _ λ req body. Yields-bind _ _ _ λ _ few. Yields-bind _ _ _ λ _ valid.
      Yields-bind _ _ _ λ _ path. Yields-bind _ _ _ λ _ target. Yields-bind _ _ _ λ _ cidrs.
        record {
          at = λ r e. subst (IsScannable c) (ok_injective e) (record {
            posted = require-true c.post _ post;
            same_origin = guard_mutation-SameOrigin c.media_of c.headers _ guard;
            json = guard_mutation-IsJson c.media_of c.headers _ guard;
            decoded = or_error-some c.body _ req body;
            few_ports =
                leb→le (length req.ports) 64 (require-true (leb (length req.ports) 64) _ few);
            ports_valid = require-true (all_valid req.ports) _ valid;
            targeted = require-true (has_target req) _ target;
            some_cidrs = require-true (has_cidrs req.custom) _ cidrs;
          });
        }

-- A scan that handleScan starts was posted, from the GUI's own origin or by no browser, with no content type or JSON's,
-- with at most 64 ports, each from 1 to 65535, and with a target that has ranges; none was running before, and
-- one is running now.
pub handle_scan-IsScannable :
    (c : Call) (scanning : Bool) (req : ScanRequest)
    → (handle_scan c scanning).0 ≡ ok req
    → IsScannable c req × (scanning ≡ false) × ((handle_scan c scanning).1 ≡ true)
unfolding handle_scan
handle_scan-IsScannable c scanning req h =
    go (check_scan c) scanning (λ r e. (check_scan-IsScannable c).at r e) h
  where
    go :
        (m : Result Rejection ScanRequest) (b : Bool)
        → ((r : ScanRequest) → m ≡ ok r → IsScannable c r)
        → (start m b).0 ≡ ok req
        → IsScannable c req × (b ≡ false) × ((start m b).1 ≡ true)
    go (err x) b sound e = cc
    go (ok r) true sound e = cc
    go (ok r) false sound e = (sound req e, refl, refl)

-- While a scan is running no call of handleScan starts another, and none clears the flag.
pub handle_scan_running :
    (c : Call) → (is_ok (handle_scan c true).0 ≡ false) × ((handle_scan c true).1 ≡ true)
unfolding handle_scan
handle_scan_running c = ground arith
