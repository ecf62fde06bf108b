-- ===== src/Identity.antt =====
-- The identity of a user: emulated_client/src/identity.rs. The credential is its identity here; the
-- keys of the signature stay in OpenMLS.
use mls_experimental_analysi.Base.{Bytes, bytes_eq, List, [], ◌∷◌}
use mls_experimental_analysi.Base.Dict.{Dict, insert, values}
use mls_experimental_analysi.DsLib.{Mls}

pub record Identity (m : Mls) : Type 0 where
  pub kp : Dict Bytes m.KeyPackage
  pub credential : Bytes

module _ {m : Mls} where
  -- `Identity::new`, from the key package that OpenMLS builds, and its hash.
  unfoldable pub new_identity : Bytes → Bytes → m.KeyPackage → Identity m
  new_identity id hash key_package = record { kp = (hash, key_package) ∷ []; credential = id }

  -- `add_key_package`, for the key package that OpenMLS builds.
  unfoldable pub add_key_package : Identity m → Bytes → m.KeyPackage → Identity m
  add_key_package identity hash key_package = record identity {
    kp = insert hash key_package identity.kp;
  }

  unfoldable pub key_packages : Identity m → List m.KeyPackage
  key_packages identity = values identity.kp
