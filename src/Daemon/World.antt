-- ===== src/Daemon/World.antt =====
-- What a TUN transaction of internal/daemon changes: the disk with the transaction files, and the host.
use tunwarden.Prelude.{List}
use tunwarden.Result.{Result}
use tunwarden.State.Disk.{Disk}
use tunwarden.State.Store.{Platform, StoreError, Op}
use tunwarden.Recovery.Host.{Action, M}

pub record World (B : Type 0) : Type 0 where
  pub disk : Disk B
  pub log : List Action

module _ (p : Platform) where
  -- a step of the daemon
  abbrev pub W : Type 0 → Type 0
  W A = World p.Bytes → A × World p.Bytes

  infixl 5 ◌>>=◌ ◌>>◌
  unfoldable pub ◌>>=◌ : {A B : Type 0} → W A → (A → W B) → W B
  ◌>>=◌ m f w = let (a, w') = m w in f a w'

  abbrev pub ◌>>◌ : {A B : Type 0} → W A → W B → W B
  m >> k = m >>= λ _. k

  unfoldable pub pure : {A : Type 0} → A → W A
  pure a w = (a, w)

  unfoldable pub on_disk : {A : Type 0} → Op p A → W (Result StoreError A)
  on_disk m w = let (r, d) = m w.disk in (r, record w { disk = d })

  unfoldable pub on_host : {A : Type 0} → M A → W A
  on_host m w = let (a, l) = m w.log in (a, record w { log = l })
