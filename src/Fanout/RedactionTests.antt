-- ===== src/Fanout/RedactionTests.antt =====
-- app/fanout/redaction.py and `_stderr_pump` of app/fanout/ffmpeg_worker.py: runs on short lines.
use restream_plus.Fanout.Redaction.Drain.{feed-settles}
use restream_plus.Logging.Redact.{occurs}
use restream_plus.Base.Texts.{Text, codes}
use restream_plus.Fanout.Redaction.{
  redact_line, literal_pass, sub_tail, match_tail, scheme, segment, run_of, feed, flush,
  drain_lines, force_split, split_line, take, force_split_threshold,
}
use restream_plus.Logging.Redact.{replace_all}
use restream_plus.Fanout.Redaction.Output.{stderr_pump-lines}
use restream_plus.Fanout.Redaction.Reads.{output_lines}
use mathlib.Core.List.{flatten}
use restream_plus.Fanout.Redaction.Pump.{
  StderrPump, stderr_pump, consume_all, consume_stderr_line, append_bounded,
}
use restream_plus.Base.{[], List, ◌≡◌, ◌∷◌, arith, ◌++◌, none, true, refl, length, ◌<◌, map}

abbrev worker_url : Text
worker_url = codes "rtmp://h/a/SECRETKEY1"

abbrev key : Text
key = codes "SECRETKEY1"

-- The URL itself, the same key on another host, and a path segment that is too short for a key.
redacts :
    redact_line worker_url (codes "to rtmp://h/a/SECRETKEY1 ok") ≡ codes "to ***REDACTED*** ok"
unfolding redact_line literal_pass sub_tail match_tail scheme segment run_of replace_all
redacts = refl

other_host :
    redact_line worker_url (codes "to rtmps://x/live/SECRETKEY1 ok")
    ≡ codes "to rtmps://x/live/***REDACTED*** ok"
unfolding redact_line literal_pass sub_tail match_tail scheme segment run_of replace_all
other_host = refl

short_segment : redact_line worker_url (codes "rtmp://h/a/short") ≡ codes "rtmp://h/a/short"
unfolding redact_line literal_pass sub_tail match_tail scheme segment run_of replace_all
short_segment = refl

abbrev fresh_pump : StderrPump
fresh_pump = record { sink = []; log_ring = []; logged = [] }

-- Two reads that cut the URL and end in a part of a line.
abbrev reads : List Text
reads = (codes "to rtmp://h/a/SEC") ∷ (codes "RETKEY1 ok" ++ 10 ∷ codes "end") ∷ []

reads_logged :
    (stderr_pump 30 worker_url reads fresh_pump).logged
    ≡ (codes "to ***REDACTED*** ok") ∷ (codes "end") ∷ []
unfolding stderr_pump consume_all consume_stderr_line append_bounded feed flush drain_lines
    force_split split_line take redact_line literal_pass sub_tail match_tail scheme segment run_of
    replace_all
reads_logged = refl

stderr_pump-lines_example :
    (stderr_pump 30 worker_url reads fresh_pump).logged
    ≡ [] ++ map (redact_line worker_url) (output_lines ([] ++ flatten reads))
unfolding split_line flatten
stderr_pump-lines_example = stderr_pump-lines 30 worker_url reads fresh_pump refl ground arith

-- A line of 60 bytes without a newline is longer than the window of 51.
abbrev long_line : Text
long_line = codes "0123456789012345678901234567890123456789012345678901234567890123456789"

feed-settles_example :
    (split_line (feed 30 worker_url long_line (codes "rtmp://h/a/SECRETKEY1")).1 ≡ none)
    × (length (feed 30 worker_url long_line (codes "rtmp://h/a/SECRETKEY1")).1
        < force_split_threshold 30 worker_url)
feed-settles_example =
    feed-settles 30 worker_url (omega arith) (omega arith) long_line (codes "rtmp://h/a/SECRETKEY1")

-- A URL that is redacted makes the window shorter, and a second URL over the window's end is cut in two:
-- its key stands in the last line.
abbrev two_urls : Text
two_urls = codes "rtmp://h/a/SECRETKEY1 0123456789 rtmp://h/a/SECRETKEY1"

cut_in_two :
    (stderr_pump 30 worker_url (two_urls ∷ []) fresh_pump).logged
    ≡ (codes "***REDACTED*** 0123456789 rtmp") ∷ (codes "://h/a/SECRETKEY1") ∷ []
unfolding stderr_pump consume_all consume_stderr_line append_bounded feed flush drain_lines
    force_split split_line take redact_line literal_pass sub_tail match_tail scheme segment run_of
    replace_all
cut_in_two = refl

key_leaks : occurs key (codes "://h/a/SECRETKEY1") ≡ true
key_leaks = refl
