-- ===== src/Recipes/BundleInstance/Entries.antt =====
-- Looking a key up in a dict that has been written, and writing one twice.
use terramate_api_wrapper.Base.{
  Bool, false, String, some, ◌==◌, string_eq, if◌then◌else◌, ◌≡◌, refl, arith,
}
use terramate_api_wrapper.Value.{entry, Value, Fields, empty, get, put, put_key}

pub get-put_key :
    (q : Bool) (j k : String) (v : Value) (d : Fields)
    → get j (put_key q k v d) ≡ (if k == j then some v else get j d)
get-put_key q j k v empty = refl
get-put_key q j k v (entry p i u d) = ground (arith, get-put_key q j k v d)

pub get-put :
    (j k : String) (v : Value) (d : Fields)
    → get j (put k v d) ≡ (if k == j then some v else get j d)
get-put j k v d = get-put_key false j k v d

pub put_key-put_key :
    (q : Bool) (k : String) (v u : Value) (d : Fields)
    → put_key q k v (put_key q k u d) ≡ put_key q k v d
put_key-put_key q k v u empty = ground arith
put_key-put_key q k v u (entry p i x d) = ground (arith, put_key-put_key q k v u d)

pub put-put : (k : String) (v u : Value) (d : Fields) → put k v (put k u d) ≡ put k v d
put-put k v u d = put_key-put_key false k v u d

-- Writing what is there changes nothing.
pub put_found : (k : String) (v : Value) (d : Fields) → get k d ≡ some v → put k v d ≡ d
put_found k v empty h = absurd (cc h)
put_found k v (entry q i x d) h = ground (arith, put_found k v d)
