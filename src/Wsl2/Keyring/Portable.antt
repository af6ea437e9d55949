-- ===== src/Wsl2/Keyring/Portable.antt =====
-- What `portableError` makes of an error.
use mathlib.Core.Path.{subst}
use common_keyring.Base.{
  String, Bool, true, false, ◌||◌, ◌≡◌, refl, sym, ◌∙◌, Option, none, some, or-true_right, ◌==◌,
  string_eq, eq_iff, if◌then◌else◌, Bool-cases, inl, inr,
}
use mathlib.Core.Bool.{or-false}
use common_keyring.Errors.Matching.{is-wrap2, is-cat, same-bridge_category, same-bridge_canceled}
use common_keyring.Errors.{
  GoError, Category, Bridge, invalid_request, unsupported_protocol, unsupported_operation,
  bad_argument, missing, access_denied, unavailable, failure, timed_out, internal, bridge, leaf,
  Sentinel, category, canceled, cat, is, same, not_found, invalid_argument, backend_unavailable,
  permission_denied, timeout, unsupported, backend_failure,
}
use common_keyring.Wsl2.Reports
use common_keyring.Wsl2.Reports.{ProtocolError, report_error, sentinel_for_code}
use common_keyring.Wsl2.Keyring.{portable_category, portable_error}

-- The category of a report with a code, as the API has it.
abbrev pub expected_category : String → Category
expected_category code =
    if code == Reports.code_timeout
    then timeout
    else if code == Reports.code_not_found
    then not_found
    else if code == Reports.code_invalid_argument
    then invalid_argument
    else if code == Reports.code_backend_unavailable
    then backend_unavailable
    else if code == Reports.code_access_denied
    then permission_denied
    else if code == Reports.code_unsupported_protocol
    then unsupported
    else if code == Reports.code_unsupported_operation
    then unsupported
    else backend_failure

-- The portable error of an error that is not a cancellation matches its one category and all
-- that the error itself matches.
portable_error-is :
    (e : GoError) (t : Sentinel)
    → is e canceled ≡ false
    → is (portable_error e) t ≡ (same (category (portable_category e)) t || is e t)
unfolding portable_error
portable_error-is e t h = rw h (is-wrap2 "" (cat (portable_category e)) e t ∙ rw is-cat)

portable_error-canceled : (e : GoError) → is e canceled ≡ true → portable_error e ≡ e
unfolding portable_error
portable_error-canceled e h = rw h

-- A case on a text that is compared with a literal.
by_text :
    (P : String → Type 0) (literal text : String)
    → P literal
    → ((text == literal) ≡ false → P text)
    → P text
by_text P literal text at other = elim (Bool-cases (text == literal)) [
  | inl e ↦ subst P (sym ((eq_iff text literal).0 e)) at
  | inr n ↦ other n
]

abbrev report : String → String → GoError
report text code = report_error text (sentinel_for_code code)

category-unknown :
    (text code : String)
    → sentinel_for_code code ≡ none
    → portable_category (report text code) ≡ backend_failure
unfolding portable_category is
category-unknown text code h = rw h

category-report :
    (text code : String) → portable_category (report text code) ≡ expected_category code
unfolding portable_category sentinel_for_code is
category-report text code = by_text P Reports.code_invalid_request code refl λ n1.
    by_text P Reports.code_unsupported_protocol code refl λ n2.
      by_text P Reports.code_unsupported_operation code refl λ n3.
        by_text P Reports.code_invalid_argument code refl λ n4.
          by_text P Reports.code_not_found code refl λ n5.
            by_text P Reports.code_access_denied code refl λ n6.
              by_text P Reports.code_backend_unavailable code refl λ n7.
                by_text P Reports.code_backend_failure code refl λ n8.
                  by_text P Reports.code_timeout code refl λ n9.
                    by_text P Reports.code_internal code refl λ n10.
                      category-unknown text code (rw (n1, n2, n3, n4, n5, n6, n7, n8, n9, n10))
                      ∙ rw (n9, n5, n4, n7, n6, n2, n3)
  where
    P : String → Type 0
    P c = portable_category (report text c) ≡ expected_category c

-- The category of every report that the helper can make, by its code; a code that the protocol
-- does not know has the category of an unexpected failure.
portable_category-as_error :
    (e : ProtocolError) → portable_category (Reports.as_error e) ≡ expected_category e.code
unfolding Reports.as_error
portable_category-as_error e = category-report (Reports.text e) e.code

-- A case on the sentinel of a code.
by_sentinel :
    (P : Option Sentinel → Type 0)
    → ((b : Bridge) → P (some (bridge b)))
    → P none
    → (code : String) → P (sentinel_for_code code)
unfolding sentinel_for_code
by_sentinel P known unknown code =
    step (code == Reports.code_invalid_request) (known invalid_request) (
      step (code == Reports.code_unsupported_protocol) (known unsupported_protocol) (
        step (code == Reports.code_unsupported_operation) (known unsupported_operation) (
          step (code == Reports.code_invalid_argument) (known bad_argument) (
            step (code == Reports.code_not_found) (known missing) (
              step (code == Reports.code_access_denied) (known access_denied) (
                step (code == Reports.code_backend_unavailable) (known unavailable) (
                  step (code == Reports.code_backend_failure) (known failure) (
                    step (code == Reports.code_timeout) (known timed_out)
                      (step (code == Reports.code_internal) (known internal) (unknown))))))))))
  where
    step : (test : Bool) {a b : Option Sentinel} → P a → P b → P (if test then a else b)
    step true x y = x
    step false x y = y

report-is :
    (text code : String) (t : Sentinel)
    → ((b : Bridge) → is (leaf (bridge b)) t ≡ false)
    → is (report text code) t ≡ false
unfolding is
report-is text code t h =
    by_sentinel (λ s. is (report_error text s) t ≡ false) (λ b. rw (h b)) refl code

bridge-category : (b : Bridge) (c : Category) → is (leaf (bridge b)) (category c) ≡ false
unfolding is
bridge-category b c = rw (same-bridge_category b c) refl

bridge-canceled : (b : Bridge) → is (leaf (bridge b)) canceled ≡ false
unfolding is
bridge-canceled b = rw (same-bridge_canceled b) refl

-- The portable error of a report of the helper matches the one portable category that the table
-- gives for the report's code, and no other; and it matches all that the report itself matches.
pub portable_error-as_error :
    (e : ProtocolError)
    → ((c : Category)
        → is (portable_error (Reports.as_error e)) (category c)
          ≡ same (category (expected_category e.code)) (category c))
      × ((t : Sentinel)
          → is (Reports.as_error e) t ≡ true
          → is (portable_error (Reports.as_error e)) t ≡ true)
unfolding Reports.as_error
portable_error-as_error e = (
  λ c.
      matched (category c)
      ∙ rw (
        category-report text e.code,
        report-is text e.code (category c) (λ b. bridge-category b c),
        or-false (same (category (expected_category e.code)) (category c)),
      ),
  λ t h. matched t ∙ or-true_right _ _ h,
)
  where
    text : String
    text = Reports.text e

    matched :
        (t : Sentinel)
        → is (portable_error (report text e.code)) t ≡ (
            same (category (portable_category (report text e.code))) t || is (report text e.code) t)
    matched t =
        portable_error-is (report text e.code) t (report-is text e.code canceled bridge-canceled)
