-- ===== src/Tests/Digest.antt =====
-- md5c.c.
use fetchmail.Prelude.{◌≡◌, refl, [], ◌∷◌, ◌++◌, arith, replicate, Bytes, codes}
use fetchmail.Md5.Pieces.{md5_update-append}
use fetchmail.Md5.{store_quad, store_quad, md5_init, md5_update, md5_final}

abbrev junk : Bytes
junk = replicate 64 7

-- The test of RFC 1321.
of_abc :
    md5_final (md5_update (md5_init junk) (codes "abc"))
    ≡ 0x90 ∷ 0x01 ∷ 0x50 ∷ 0x98 ∷ 0x3c ∷ 0xd2 ∷ 0x4f ∷ 0xb0 ∷ 0xd6 ∷ 0x96 ∷ 0x3f ∷ 0x7d ∷ 0x28
      ∷ 0xe1 ∷ 0x7f ∷ 0x72 ∷ []
unfolding md5_final md5_update md5_init
of_abc = refl

md5_update-append_example :
    md5_update (md5_update (md5_init junk) (codes "a")) (codes "bc")
    ≡ md5_update (md5_init junk) (codes "a" ++ codes "bc")
md5_update-append_example =
    md5_update-append (md5_init junk) (codes "a") (codes "bc") (unfold md5_init in omega arith)
      (unfold md5_init in omega arith) (omega arith)
