-- ===== src/Lb/BackendConfig/Tests.antt =====
-- BackendConfig.cpp: a file with comments, an address and lines that are passed over.
use aorta.Prelude.{◌≡◌, refl, some, [], ◌∷◌, Bytes, codes}
use aorta.Lb.BackendConfig.Defs.{listed_backend, load}
use aorta.Lb.BackendConfig.Valid.{AllListed, load-AllListed}

abbrev text : Bytes
text = codes "# backends\nweb1:8080\nweb2:0\nweb3\nweb4:70000\n\nweb5: 99x"

load-AllListed_example : AllListed (load (some text))
load-AllListed_example = load-AllListed (some text)

lists_two :
    load (some text) ≡ listed_backend (codes "web1") 8080 ∷ listed_backend (codes "web5") 99 ∷ []
unfolding load
lists_two = refl
