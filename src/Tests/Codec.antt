-- ===== src/Tests/Codec.antt =====
-- Runs of the encoder and the decoder of deps/simple_resp, at which the
-- theorems are applied.
use mathlib.Core.List.{foldl, flatten}
use logcabin_redis_proxy.Base.{◌^◌, ◌-◌, ◌≡◌, refl, List, [], ◌∷◌, ◌++◌, ◌⊎◌, some, arith}
use logcabin_redis_proxy.Bytes.{Bytes, codes, crlf}
use logcabin_redis_proxy.Num.{
  NumError, out_of_range, to_string, stoi, strtol, magnitude, digits_value,
}
use logcabin_redis_proxy.Resp.Decoder.{
  Progress, DecodeContext, ok, threw, new_decode_context, feed, decode,
}
use logcabin_redis_proxy.Resp.Decoder.Chunks.{then_feed, feed-append}
use logcabin_redis_proxy.Resp.Decoder.Stuck.{Unanswered, feed_none}
use logcabin_redis_proxy.Resp.Decoder.Crash.{decode-encode_empty_last}
use logcabin_redis_proxy.Resp.Decoder.Ends.{decode-ends}
use logcabin_redis_proxy.Resp.Decoder.Invariant.{
  FeedKeeps, feed-IsWellFormed, new_decode_context-IsWellFormed,
}
use logcabin_redis_proxy.Resp.Decoder.RoundTrip.{
  IsIdle, IsSendable, all_written, numbered, decode-pipeline,
}
use logcabin_redis_proxy.Resp.Decoder.Waits.{feed_waits, feed_negative}
use logcabin_redis_proxy.Resp.Replies.Encoding.{encode_list-read_answer}
use logcabin_redis_proxy.Resp.Replies.{simple, null, many, read_answer, no_cr, IsReadableItem}
use logcabin_redis_proxy.Resp.Replies
use logcabin_redis_proxy.Resp.Encoder.{encode_list, encode, line, bulk, bulks}
use logcabin_redis_proxy.Resp.{
  parse_elements, parse_bluk_strings, arrays, RedisTypeValuePair, simple_strings, bulk_nil,
  integers, Command, EncodeResult,
}
use logcabin_redis_proxy.Resp

abbrev get_request : Bytes
get_request =
    codes "*2"
    ++ (crlf
        ++ (codes "$3"
            ++ (crlf ++ (codes "GET" ++ (crlf ++ (codes "$1" ++ (crlf ++ (codes "k" ++ crlf))))))))

abbrev get_args : List Bytes
get_args = codes "GET" ∷ codes "k" ∷ []

abbrev fresh : DecodeContext
fresh = new_decode_context 7 5

fresh-IsIdle : IsIdle fresh
unfolding new_decode_context
fresh-IsIdle = record { at_init = refl; no_elements = refl; no_bytes = refl }

get_args-IsSendable : IsSendable get_args
get_args-IsSendable = (omega arith, (omega arith, (omega arith, omega arith)))

-- Cut inside the first line and inside a string.
feed-append_example :
    feed fresh (codes "*2" ++ (crlf ++ (codes "$3" ++ (crlf ++ (codes "GE" ++ codes "T")))))
    ≡ then_feed (feed fresh (codes "*2" ++ (crlf ++ (codes "$3" ++ crlf)))) (codes "GET")
feed-append_example = feed-append fresh (codes "*2" ++ (crlf ++ (codes "$3" ++ crlf))) (codes "GET")

-- A token that is no number, where a request should begin.
abbrev garbage : DecodeContext
garbage = record fresh { buffered_input = codes "*x" ++ crlf }

decode-ends_example :
    ((ctx' : DecodeContext) × (decode garbage ≡ ok ctx'))
    ⊎ ((e : NumError) × (h : List Command) × (decode garbage ≡ threw e h))
decode-ends_example = decode-ends garbage

feed-IsWellFormed_example : FeedKeeps (feed fresh get_request)
feed-IsWellFormed_example =
    feed-IsWellFormed fresh get_request (new_decode_context-IsWellFormed 7 5)

abbrev get_result : EncodeResult
get_result = record { status = Resp.ok; response = get_request }

encodes : encode arrays get_args ≡ some get_result
unfolding encode line bulks bulk to_string
encodes = refl

-- Two requests in three reads, cut behind the first '\r' and inside the second command's name.
abbrev first_read : Bytes
first_read = codes "*2" ++ (13 ∷ [])

abbrev second_read : Bytes
second_read =
    (10 ∷ [])
    ++ (codes "$3"
        ++ (crlf
            ++ (codes "GET"
                ++ (crlf
                    ++ (codes "$1"
                        ++ (crlf
                            ++ (codes "k"
                                ++ (crlf
                                    ++ (codes "*2"
                                        ++ (crlf ++ (codes "$3" ++ (crlf ++ codes "G"))))))))))))

abbrev third_read : Bytes
third_read = codes "ET" ++ (crlf ++ (codes "$1" ++ (crlf ++ (codes "k" ++ crlf))))

reads :
    first_read ++ flatten (second_read ∷ third_read ∷ []) ≡ all_written (get_args ∷ get_args ∷ [])
unfolding line bulks bulk to_string flatten
reads = refl

decode-pipeline_example :
    (q : Progress) × (foldl then_feed (feed fresh first_read) (second_read ∷ third_read ∷ [])
      ≡ ok (record fresh { progress = q }))
    × (q.handled ≡ fresh.handled ++ numbered fresh.last_command_id (get_args ∷ get_args ∷ []))
    × IsIdle (record fresh { progress = q })
decode-pipeline_example =
    decode-pipeline fresh (get_args ∷ get_args ∷ []) first_read (second_read ∷ third_read ∷ [])
      fresh-IsIdle (get_args-IsSendable, (get_args-IsSendable, tt)) reads

-- SET k "" ends the process.
abbrev set_args : List Bytes
set_args = codes "SET" ∷ codes "k" ∷ []

abbrev set_empty : EncodeResult
set_empty = record {
  status = Resp.ok;
  response =
      codes "*3"
      ++ (crlf
          ++ (codes "$3"
              ++ (crlf
                  ++ (codes "SET"
                      ++ (crlf
                          ++ (codes "$1"
                              ++ (crlf
                                  ++ (codes "k" ++ (crlf ++ (codes "$0" ++ (crlf ++ crlf)))))))))));
}

encodes_empty : encode arrays (set_args ++ ([] ∷ [])) ≡ some set_empty
unfolding encode line bulks bulk to_string
encodes_empty = refl

decode-encode_empty_last_example :
    feed fresh set_empty.response
    ≡ threw out_of_range (
        fresh.handled
        ++ (record { command_id = fresh.last_command_id; request = set_args ++ ([] ∷ []) } ∷ []))
decode-encode_empty_last_example =
    decode-encode_empty_last fresh set_args set_empty fresh-IsIdle (omega arith)
      (omega arith, (omega arith, tt)) encodes_empty

-- In the middle of a string of six bytes.
abbrev in_string : DecodeContext
in_string = record fresh {
  progress = record fresh.progress {
    state = parse_bluk_strings;
    reading_list_size = 1;
    reading_str_size = 6;
  };
  buffered_input = codes "a";
}

feed_waits_example :
    feed in_string (crlf ++ codes "bcd")
    ≡ ok (record in_string { buffered_input = codes "a" ++ (crlf ++ codes "bcd") })
feed_waits_example = feed_waits in_string (crlf ++ codes "bcd") refl (omega arith)

-- Behind "*1\r\n".
abbrev in_request : DecodeContext
in_request = record fresh {
  progress = record fresh.progress { state = parse_elements; reading_list_size = 1 };
}

feed_negative_example :
    feed in_request (codes "$-5" ++ (crlf ++ (codes "ping" ++ crlf)))
    ≡ ok (record in_request {
      progress = record in_request.progress {
        reading_str_size = 2 ^ 64 - 5;
        state = parse_bluk_strings;
      };
      buffered_input = codes "ping" ++ crlf;
    })
unfolding new_decode_context stoi strtol magnitude digits_value
feed_negative_example =
    feed_negative in_request (codes "-5") (codes "ping" ++ crlf) 4 refl refl
      (omega arith, (omega arith, tt)) refl (omega arith) (omega arith)

abbrev mixed : List RedisTypeValuePair
mixed =
    record { type = simple_strings; value = codes "a" }
    ∷ record { type = bulk_nil; value = [] }
    ∷ record { type = integers; value = codes "1" }
    ∷ []

encode_list-read_answer_example :
    read_answer ((encode_list mixed).response ++ codes "+")
    ≡ some (many (simple (codes "a") ∷ null ∷ Replies.bulk_string (codes "1") ∷ []), codes "+")
unfolding IsReadableItem no_cr
encode_list-read_answer_example =
    encode_list-read_answer mixed (codes "+") ((λ e. cc e), ((λ e. cc e), ((λ e. cc e), tt)))
      (refl, (tt, (tt, tt)))

feed_none_example :
    Unanswered fresh (feed fresh (codes "*0" ++ (crlf ++ all_written ((codes "ping" ∷ []) ∷ []))))
feed_none_example = feed_none fresh (all_written ((codes "ping" ∷ []) ∷ [])) fresh-IsIdle
