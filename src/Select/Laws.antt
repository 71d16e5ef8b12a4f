-- ===== src/Select/Laws.antt =====
-- The prefix of web/src/components/ui/select.tsx is taken off again.
use text.Mathlib.TextLemmas.{nil-append, cons-append}
use card_scope.Base.{◌≡◌, String, ◌&◌, points}
use card_scope.Select.{encode, slice_from}

pub slice_from-append : (p v : String) → slice_from (points p) (p & v) ≡ v
unfolding slice_from
slice_from-append String.[] v = rw nil-append
slice_from-append (String.◌∷◌ c p) v = rw cons-append (slice_from-append p v)

pub slice_from-encode : (v : String) → slice_from 7 (encode v) ≡ v
slice_from-encode v = slice_from-append "option:" v
