-- ===== src/Api/Cache.antt =====
-- `RedisClient` of api/src/redis_client.cpp.
use cdc_pipeline.Base.{String, false, Option, none, some, if◌then◌else◌}
use cdc_pipeline.Consumer.Redis.{Keys}
use cdc_pipeline.Api.Action.{other_exception, thrown, Action, pure, throw}

-- What `redisCommand` returns for a `GET`: none after a timeout or where the connection died.
pub data Reply : Type 0 where
  no_reply nil_reply other_reply : Reply
  text_reply : String → Reply

module _ {S : Type 0} where
  -- The context is freed where there is no reply, and nothing connects anew.
  on_reply : Reply → Action S (Option String)
  on_reply no_reply w =
      (thrown (other_exception "Redis command failed or timed out"), record w { connected = false })
  on_reply nil_reply w = pure none w
  on_reply (text_reply text) w = pure (some text) w
  on_reply other_reply w = throw (other_exception "Unexpected Redis reply type") w

  -- `redis` is what the server replies to a `GET` of each key at this moment.
  unfoldable pub get : (String → Reply) → String → Action S (Option String)
  unfolding on_reply
  get redis key w =
      if w.connected
      then on_reply (redis key) w
      else throw (other_exception "Redis context is null") w

-- A server with these keys.
abbrev pub reply_of : Option String → Reply
reply_of none = nil_reply
reply_of (some text) = text_reply text

unfoldable pub replies : Keys → String → Reply
replies keys key = reply_of (keys key)
