-- ===== src/Contract/SelectionErrors.antt =====
-- internal/contract/selection.go: the error of a selection that could not complete.
use common_keyring.Base.{
  String, ◌<>◌, Bool, true, false, ◌||◌, ◌≡◌, refl, ◌∙◌, Option, none, some, List, [], ◌∷◌, any,
  arith, if◌then◌else◌,
}
use common_keyring.Errors.{GoError, Sentinel, wrap, from_list, is, is_any}
use common_keyring.Errors.Matching.{matches, is-matches}
use common_keyring.Contract.Info.{Rejection}

-- A selection error, which is never a nil pointer where the program makes one.
pub record SelectionError : Type 0 where
  pub rejected : List Rejection
  pub cause : Option GoError

text_loop : String → List Rejection → String
text_loop result [] = result
text_loop result (r ∷ rest) = text_loop (result <> ": " <> r.backend) rest

-- `Error`
unfoldable pub text : SelectionError → String
unfolding text_loop
text e = text_loop "credential backend selection failed" e.rejected

-- `errors.Is(e.Cause, err)`; a nil cause matches no error
unfoldable pub covered : Option GoError → GoError → Bool
covered none err = false
covered (some cause) err = matches cause err

-- One round of the loop of `Unwrap`, before the reasons of the later rejections.
unfoldable pub keep_reason : Option GoError → Option GoError → List GoError → List GoError
unfolding covered
keep_reason cause none more = more
keep_reason cause (some err) more = if covered cause err then more else err ∷ more

-- The loop of `Unwrap` over the rejections.
unfoldable pub reasons : Option GoError → List Rejection → List GoError
unfolding keep_reason
reasons cause [] = []
reasons cause (r ∷ rest) = keep_reason cause r.err (reasons cause rest)

-- The part of `Unwrap` above its loop.
unfoldable pub first_reason : Option GoError → List GoError → List GoError
first_reason none more = more
first_reason (some cause) more = cause ∷ more

-- `Unwrap`
unfoldable pub unwrap : SelectionError → List GoError
unfolding reasons first_reason
unwrap e = first_reason e.cause (reasons e.cause e.rejected)

-- The selection error as `errors.Is` sees it.
unfoldable pub as_error : SelectionError → GoError
unfolding unwrap text
as_error e = wrap (text e) (from_list (unwrap e))

-- Whether a field of type `error` that may be nil matches.
abbrev pub option_is : Option GoError → Sentinel → Bool
option_is none t = false
option_is (some e) t = is e t

covered-is :
    (cause : Option GoError) (err : GoError) (t : Sentinel)
    → covered cause err ≡ true
    → is err t ≡ true
    → option_is cause t ≡ true
unfolding covered
covered-is none err t h k = cc
covered-is (some c) err t h k = is-matches c err t h k

keep_reason-is :
    (cause err : Option GoError) (more : List GoError) (t : Sentinel)
    → (option_is cause t || is_any (from_list (keep_reason cause err more)) t)
      ≡ (option_is cause t || (option_is err t || is_any (from_list more) t))
unfolding keep_reason is
keep_reason-is cause none more t = refl
keep_reason-is cause (some err) more t = ground (arith, covered-is cause err t)

or_swap : (c x a b : Bool) → (c || a) ≡ (c || b) → (c || (x || a)) ≡ (c || (x || b))
or_swap c x a b h = ground arith

reasons-is :
    (cause : Option GoError) (rs : List Rejection) (t : Sentinel)
    → (option_is cause t || is_any (from_list (reasons cause rs)) t)
      ≡ (option_is cause t || any (λ r. option_is r.err t) rs)
unfolding reasons is
reasons-is cause [] t = refl
reasons-is cause (r ∷ rest) t =
    keep_reason-is cause r.err (reasons cause rest) t
    ∙ or_swap (option_is cause t) (option_is r.err t) _ _ (reasons-is cause rest t)

first_reason-is :
    (cause : Option GoError) (more : List GoError) (t : Sentinel)
    → is_any (from_list (first_reason cause more)) t
      ≡ (option_is cause t || is_any (from_list more) t)
unfolding first_reason is
first_reason-is none more t = refl
first_reason-is (some c) more t = refl

-- A selection error matches exactly what its cause or one of its rejections matches, although
-- `Unwrap` leaves out the rejections that the cause covers.
pub is-as_error :
    (e : SelectionError) (t : Sentinel)
    → is (as_error e) t ≡ (option_is e.cause t || any (λ r. option_is r.err t) e.rejected)
unfolding as_error is
is-as_error e t = first_reason-is e.cause _ t ∙ reasons-is e.cause e.rejected t
