-- ===== src/Base64/Examples.antt =====
-- Texts that Go's encoder writes, and one that its decoder refuses.
use netso.Common.{◌≡◌, refl, some, none}
use netso.Common.Bytes.{codes}
use netso.Base64.{encode_public, decode_public, decode_quads, skip_breaks, value_of}

test_encode : encode_public (codes "netso") ≡ codes "bmV0c28="
unfolding encode_public
test_encode = refl

test_decode_breaks : decode_public (codes "bmV0\nc28=\n") ≡ some (codes "netso")
unfolding decode_public decode_quads skip_breaks value_of
test_decode_breaks = refl

test_decode_unpadded : decode_public (codes "bmV0c28") ≡ none
unfolding decode_public decode_quads skip_breaks value_of
test_decode_unpadded = refl
