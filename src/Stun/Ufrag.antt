-- ===== src/Stun/Ufrag.antt =====
-- The name of a binding request: the local fragment, a colon, and the remote fragment.
use clibmedia_transfer_proto.Common.{◌≡◌, refl, false, none, some, [], ◌∷◌, ◌++◌, ◌==◌, All}
use clibmedia_transfer_proto.ByteIo.{Bytes}
use clibmedia_transfer_proto.Stun.{Stun, find_colon, local_ufrag}

find_colon-found :
    (front behind : Bytes)
    → All (λ c. c == b':' ≡ false) front
    → find_colon (front ++ (b':' ∷ behind)) ≡ some front
unfolding find_colon
find_colon-found [] behind a = refl
find_colon-found (c ∷ front) behind a = rw (find_colon, a.0, find_colon-found front behind a.1) refl

find_colon-missing : (name : Bytes) → All (λ c. c == b':' ≡ false) name → find_colon name ≡ none
unfolding find_colon
find_colon-missing [] a = refl
find_colon-missing (c ∷ name) a = rw (find_colon, a.0, find_colon-missing name a.1) refl

-- `LocalUFrag` of a name is what stands before its first colon, and nothing without a colon.
local_ufrag-name :
    (s : Stun) (front behind : Bytes)
    → All (λ c. c == b':' ≡ false) front
    → (s.user_name ≡ front ++ (b':' ∷ behind) → local_ufrag s ≡ front)
      × (s.user_name ≡ front → local_ufrag s ≡ [])
unfolding local_ufrag
local_ufrag-name s front behind a = (
  λ e. rw (local_ufrag, e, find_colon-found front behind a) refl,
  λ e. rw (local_ufrag, e, find_colon-missing front a) refl,
)
