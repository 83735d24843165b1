-- ===== src/Samples/Quotas.antt =====
-- The theorems on quotas and labels, at concrete values.
use mathlib.Core.Option
use nodepool.Prelude.{true, some, none, [], ◌∷◌, ◌≡◌, refl}
use nodepool.Prelude.Amount.{fin, infinite, pos, minus, Fits}
use nodepool.Driver.Quota.{
  QuotaInformation, add_subtract, subtract, non_negative, from_resources, quota_information,
}
use nodepool.Driver.Quota.Laws.{find, has_resource, amount, start, find-add_subtract, subtract-Fits}

abbrev limits : QuotaInformation
limits = quota_information (some (fin (pos 8))) (some (fin (pos 4))) none infinite []

abbrev needed : QuotaInformation
needed = from_resources (("cores", fin (pos 2)) ∷ ("volume-gb", fin (pos 80)) ∷ [])

find-add_subtract_example :
    find "compute" "cores" (add_subtract minus limits needed).quota
    ≡ Option.map
        (λ v. minus v (amount "compute" "cores" needed))
        (start "compute" "cores" limits needed)
find-add_subtract_example = find-add_subtract minus limits needed "compute" "cores"

fits : non_negative (subtract limits needed) ≡ true
unfolding non_negative subtract quota_information from_resources
fits = refl

start_cores : start "compute" "cores" limits needed ≡ some (fin (pos 8))
unfolding quota_information from_resources find has_resource
start_cores = refl

subtract-Fits_example : Fits (amount "compute" "cores" needed) (fin (pos 8))
subtract-Fits_example = subtract-Fits limits needed "compute" "cores" fits start_cores
