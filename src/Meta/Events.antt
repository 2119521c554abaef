-- ===== src/Meta/Events.antt =====
-- Event vectors keep every event, in order.
use mathlib.Core.List.{flatten, append-nil, append_assoc}
use sycl_blas.Base.{◌≡◌, sym, ◌∙◌, List, [], ◌∷◌, ◌++◌}
use sycl_blas.Meta.{append_vector, concatenate_vectors}

-- The result is the first vector followed by all others, in the order of the arguments.
concatenate_vectors-flatten {ℓ} :
    {A : Type ℓ} (first : List A) (others : List (List A))
    → concatenate_vectors first others ≡ first ++ flatten others
unfolding concatenate_vectors append_vector flatten
concatenate_vectors-flatten first [] = sym (append-nil first)
concatenate_vectors-flatten first (v ∷ others) =
    concatenate_vectors-flatten (first ++ v) others ∙ append_assoc first v (flatten others)
