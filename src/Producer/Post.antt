-- ===== src/Producer/Post.antt =====
-- internal/monitor/producer.go: `sendHTTP`, the post of a single metric. The compressors and the
-- server are the arguments `HttpCodec` and `post`.
use redborder_monitor.Base.{ℕ, Bool, ◌||◌, Option, none, some, ◌==◌, if◌then◌else◌, []}
use redborder_monitor.Base.Text.{Bytes, codes, same, to_lower}
use redborder_monitor.Stats.{Counts}
use redborder_monitor.Sensor.{increment_64}
use redborder_monitor.Producer.{HttpClient, HttpSide}

-- `none` where the compressor cannot be made
pub record HttpCodec : Type 0 where
  pub deflate : Bytes → Option Bytes
  pub gzip : Bytes → Bytes

pub record PostRequest : Type 0 where
  pub url : Bytes
  pub body : Bytes
  -- Content-Encoding, which is not set where it is empty
  pub encoding : Bytes

-- The request cannot be made, the client fails, or the server answers.
pub data PostAnswer : Type 0 where
  bad_request : PostAnswer
  no_answer : PostAnswer
  status : ℕ → PostAnswer

abbrev pub deflated : Bytes → Option Bytes → Bytes × Bytes
deflated plain none = (plain, [])
deflated plain (some packed) = (packed, codes "deflate")

-- the body and its encoding
unfoldable pub encode_body : HttpCodec → Bytes → Bytes → Bytes × Bytes
encode_body codec mode plain =
    if same (to_lower mode) (codes "deflated")
    then deflated plain (codec.deflate plain)
    else if same (to_lower mode) (codes "gzip")
    then (codec.gzip plain, codes "gzip")
    else (plain, [])

abbrev pub is_accepted_status : ℕ → Bool
is_accepted_status n = n == 200 || n == 202 || n == 204

abbrev pub count_post : PostAnswer → Counts → Counts
count_post bad_request c = record c { metrics_failed_http = increment_64 c.metrics_failed_http }
count_post no_answer c = record c { metrics_failed_http = increment_64 c.metrics_failed_http }
count_post (status n) c =
    if is_accepted_status n
    then record c { metrics_sent_http = increment_64 c.metrics_sent_http }
    else record c { metrics_failed_http = increment_64 c.metrics_failed_http }

abbrev pub post_with :
    Option HttpClient → HttpCodec → (PostRequest → PostAnswer) → HttpSide → Bytes → Counts → Counts
post_with none codec post h plain c = c
post_with (some client) codec post h plain c =
    let (body, encoding) = encode_body codec h.mode plain in
    count_post (post (record { url = h.url; body = body; encoding = encoding })) c

unfoldable pub send_http :
    HttpCodec → (PostRequest → PostAnswer) → HttpSide → Bytes → Counts → Counts
send_http codec post h plain c = post_with h.client codec post h plain c
