-- ===== src/Value/Storage.antt =====
-- The storage form loses nothing.
use orgsync.Base.{◌≡◌, refl, length-le_bytes, from_le-le_bytes, arith}
use orgsync.Error.{ok}
use orgsync.Value.{SqlValue, null, int, real, text, blob, to_storage, from_storage, IsValue}

-- Every value is read back from its storage form.
pub from_storage-to_storage :
    (v : SqlValue) → IsValue v → from_storage (to_storage v).0 (to_storage v).1 ≡ ok v
unfolding to_storage from_storage
from_storage-to_storage null h = refl
from_storage-to_storage (int i) h = ground (arith, length-le_bytes 8 i, from_le-le_bytes 8 i h)
from_storage-to_storage (real f) h = ground (arith, length-le_bytes 8 f, from_le-le_bytes 8 f h)
from_storage-to_storage (text s) h = ground arith
from_storage-to_storage (blob b) h = refl
