-- ===== src/Bus/Tests.antt =====
-- The bus theorems with three handlers.
use mirror_cloud.Common.{◌≡◌, [], ◌∷◌}
use mirror_cloud.Bytes.{Bytes, codes, same}
use mirror_cloud.GoMap.{lookup, insert}
use mirror_cloud.Bus.{Bus, new_bus, publish, subscribe}
use mirror_cloud.Bus.Cancel.{first_in_first_out, publish-fifo}

abbrev wake : Bytes
wake = codes "collection:msgs"

abbrev listened : Bus
listened = (subscribe wake 1 new_bus).1

publish-fifo_example :
    publish wake [] (first_in_first_out wake 2 3 listened) ≡ (1, []) ∷ (3, []) ∷ []
unfolding publish subscribe new_bus lookup insert same
publish-fifo_example = publish-fifo wake [] 2 3 listened
