-- ===== src/Service/FileTests.antt =====
-- A file of two frames that is recorded.
use local_pc.Common.{◌≡◌, refl, some, [], ◌∷◌}
use local_pc.Crc.Runtime.{crc32}
use local_pc.Frame.Header.{type_code}
use local_pc.Frame.Round.{concat}
use local_pc.Frame.Sample.{sample_frame, sample_frame-IsFrame}
use local_pc.Writer.Chunks.{ChunkWriter, init}
use local_pc.Writer.Contents.{Holds}
use local_pc.Writer.Places.{files}
use local_pc.Writer.Sample.{small_config}
use local_pc.Service.Runtime.{Service}
use local_pc.Service.FileInput.{process_file_input, process_file_input-concat}
use local_pc.Service.Tests.{writing, writing-IsWriting, moment, not_the_end}

new_writer-Holds : Holds [] (init small_config 0)
new_writer-Holds = record {
  groups = [];
  current = [];
  earlier = refl;
  file = refl;
  all = refl;
  closed = λ e. refl;
  bytes = refl;
  packets = refl;
}

process_file_input-concat_example :
    (s' : Service) × (w' : ChunkWriter) × (process_file_input crc32
        (λ n. moment)
        writing
        (some (concat (sample_frame ∷ sample_frame ∷ [])))
      ≡ some s')
    × (s'.writer ≡ some w')
    × (concat (files w') ≡ concat (sample_frame ∷ sample_frame ∷ []))
unfolding type_code
process_file_input-concat_example =
    process_file_input-concat crc32 8192 (λ n. moment) (init small_config 0) writing
      (sample_frame ∷ sample_frame ∷ []) writing-IsWriting new_writer-Holds (λ o. absurd (cc))
      (λ i. (refl, refl, refl))
      ((sample_frame-IsFrame, not_the_end), ((sample_frame-IsFrame, not_the_end), tt))
