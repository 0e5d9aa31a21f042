-- ===== src/Backend/Redis.antt =====
-- The Redis server of the backend as its engines use it: the commands that they send, in order, and
-- the replies, the clock and random bytes, which may depend on all that was sent before.
use steeleagle.Prelude.{String, Bool, List, Dict}
use steeleagle.Prelude.Int.{ℤ}

pub data Command : Type 0 where
  -- a key's field and its value, as text
  hset : String → String → String → Command
  -- a new entry of a stream
  xadd : String → Dict ℤ → Command
  expire : String → ℤ → Command
  geoadd : String → ℤ → ℤ → String → Command
  delete : String → Command
  zadd : String → Dict ℤ → Command

abbrev pub Commands : Type 0
Commands = List Command

pub record Server : Type 0 where
  pub exists : Commands → String → Bool
  pub zscan : Commands → String → List (String × ℤ)
  -- the members within a radius of a longitude and latitude
  pub geosearch : Commands → String → ℤ → ℤ → ℤ → List String
  pub hgetall : Commands → String → Dict String
  -- `time.time()`
  pub now : Commands → ℤ
  -- `os.urandom(2).hex()`
  pub random_hex : Commands → String
  -- a number as an f-string shows it
  pub show : ℤ → String

-- the key that a command changes
unfoldable pub key_of : Command → String
key_of (hset key field value) = key
key_of (xadd key fields) = key
key_of (expire key seconds) = key
key_of (geoadd key lon lat member) = key
key_of (delete key) = key
key_of (zadd key members) = key
