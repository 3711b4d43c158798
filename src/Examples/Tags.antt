-- ===== src/Examples/Tags.antt =====
-- Versions that are compared.
use ruk.Prelude.{◌≡◌, refl, true, none, some, [], ◌∷◌}
use ruk.Prelude.Int.{negsuc}
use ruk.Prelude.Text.{codes}
use ruk.Versions.{Version, equal, by_number, is_numeric, compare_identifier, compare}
use ruk.Versions.Print.{version_string}
use ruk.Versions.Parse.{parse_version, compare_versions, trim_prefix}
use ruk.Versions.Parse.Exact.{compare_versions-equal}
use ruk.Versions.Parse.RoundTrip.{version_string-parse_version}
use ruk.Versions.Order.{swapped, compare_swap}
use ruk.Versions.Numbers.{value, compare_identifier-value}

abbrev release : Version
release = record { major = 1; minor = 20; patch = 3; prerelease = [] }

abbrev beta : Version
beta = record release { prerelease = codes "beta" ∷ codes "2" ∷ [] }

abbrev late_beta : Version
late_beta = record release { prerelease = codes "beta" ∷ codes "11" ∷ [] }

beta-release : compare beta release ≡ negsuc 0
unfolding compare
beta-release = refl

beta-late_beta : compare beta late_beta ≡ negsuc 0
unfolding compare
beta-late_beta = refl

compare_swap_example : compare late_beta beta ≡ swapped (compare beta late_beta)
compare_swap_example = compare_swap beta late_beta

nine : is_numeric (codes "009") ≡ true
unfolding is_numeric
nine = refl

ten : is_numeric (codes "10") ≡ true
unfolding is_numeric
ten = refl

compare_identifier-value_example :
    compare_identifier (codes "009") (codes "10")
    ≡ by_number (value (codes "009")) (value (codes "10")) equal
compare_identifier-value_example = compare_identifier-value (codes "009") (codes "10") nine ten

beta_text : parse_version (codes "v1.20.3-beta.2") ≡ some beta
unfolding parse_version
beta_text = refl

leading_zero : parse_version (codes "1.02.3") ≡ none
unfolding parse_version
leading_zero = refl

too_large : parse_version (codes "18446744073709551616.0.0") ≡ none
unfolding parse_version
too_large = refl

beta_string : version_string beta ≡ codes "1.20.3-beta.2"
unfolding version_string
beta_string = refl

version_string-parse_version_example : version_string beta ≡ trim_prefix (codes "v1.20.3-beta.2")
version_string-parse_version_example =
    version_string-parse_version (codes "v1.20.3-beta.2") beta_text

equal_texts : compare_versions (codes "v1.20.3-beta.2") (codes "1.20.3-beta.2") ≡ some equal
unfolding compare_versions compare
equal_texts = refl

compare_versions-equal_example :
    (v : Version) × (parse_version (codes "v1.20.3-beta.2") ≡ some v)
    × (parse_version (codes "1.20.3-beta.2") ≡ some v)
compare_versions-equal_example =
    compare_versions-equal (codes "v1.20.3-beta.2") (codes "1.20.3-beta.2") equal_texts
