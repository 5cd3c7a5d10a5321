-- ===== src/Telemetry/Examples.antt =====
-- A reader of two words that meets a writer half-way, and then succeeds.
use ocudu_channel.Common.{ℕ, ◌+◌, ◌<◌, ◌≡◌, refl, arith, update, word_mod}
use ocudu_channel.Telemetry.{
  Words, Telemetry, consistent, publish_step, read_step, Reach, here, next, writes, reads, initial,
}
use ocudu_channel.Telemetry.Untorn.{OneOf, read-untorn}

abbrev old : Words ℕ
old = λ j. 0

abbrev new : Words ℕ
new = λ j. j + 10

abbrev start : Telemetry ℕ
start = initial old

abbrev w : Telemetry ℕ → Telemetry ℕ
w = publish_step 2 new

abbrev r : Telemetry ℕ → Telemetry ℕ
r = read_step 2 8

-- The reader starts, the writer publishes, the reader fails once and reads the new snapshot.
abbrev finish : Telemetry ℕ
finish = r (r (r (r (r (r (w (w (w (w (r (r start)))))))))))

-- The words that the failed attempt had copied are overwritten.
abbrev got : Words ℕ
got = update (update (update (update old 0 (old 0)) 1 (new 1)) 0 (new 0)) 1 (new 1)

reads_new : finish.reader ≡ consistent got
unfolding publish_step read_step initial
reads_new = refl

got_new : (got 0 ≡ 10) × (got 1 ≡ 11)
got_new = (refl, refl)

w-Reach : {s : Telemetry ℕ} → Reach 2 8 start s → s.write_seq + 2 < word_mod → Reach 2 8 start (w s)
w-Reach h room = next h (writes new room)

r-Reach : {s : Telemetry ℕ} → Reach 2 8 start s → Reach 2 8 start (r s)
r-Reach h = next h reads

finish-Reach : Reach 2 8 start finish
unfolding publish_step read_step initial
finish-Reach =
    let begun : Reach 2 8 start (r (r start)) = r-Reach (r-Reach here) in
    let one : Reach 2 8 start (w (r (r start))) = w-Reach begun (omega arith) in
    let two : Reach 2 8 start (w (w (r (r start)))) = w-Reach one (omega arith) in
    let three : Reach 2 8 start (w (w (w (r (r start))))) = w-Reach two (omega arith) in
    let four : Reach 2 8 start (w (w (w (w (r (r start)))))) = w-Reach three (omega arith) in
    r-Reach (r-Reach (r-Reach (r-Reach (r-Reach (r-Reach four)))))

read-untorn_example : OneOf 2 got finish.published
read-untorn_example = read-untorn 2 8 old got finish-Reach reads_new
