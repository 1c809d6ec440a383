-- ===== src/Hier/Tests.antt =====
-- A listing of four blobs.
use mirror_cloud.Common.{◌≡◌, refl, List, [], ◌∷◌}
use mirror_cloud.Bytes.{Bytes, codes, has_prefix, same, less}
use mirror_cloud.Bytes.Sort.{has, sort_strings}
use mirror_cloud.Hier.{hier_list, up_to_first}
use mirror_cloud.Hier.Listing.{IsListingOf, hier_list_exact}

abbrev blobs : List Bytes
blobs = codes "a/y" ∷ codes "a/x/1" ∷ codes "a/x/2" ∷ codes "b" ∷ []

folded : hier_list blobs (codes "a/") (codes "/") ≡ codes "a/x/" ∷ codes "a/y" ∷ []
unfolding hier_list has_prefix up_to_first has same less sort_strings
folded = refl

hier_list_exact_example :
    IsListingOf blobs (codes "a/") (codes "/") (hier_list blobs (codes "a/") (codes "/"))
hier_list_exact_example = hier_list_exact blobs (codes "a/") (codes "/")
