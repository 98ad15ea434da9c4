-- ===== src/Content/PostContent.antt =====
-- content/disk_loader.go: the rendered text of a local post, which is kept. The frontmatter parser and
-- the renderer are parameters. The lock is held from the second test of the cache to the end, so that
-- one call is one step.
use blogengine.Prelude.{ℕ, ◌*◌, ltb, Option, none, some, if◌then◌else◌}
use blogengine.Prelude.Text.{Text}
use blogengine.Content.Repository.{Post}

-- ErrReadingFile, ErrFileStats, ErrFileTooLarge, ErrBufferError and ErrContentUnavailable
pub data LoadError : Type 0 where
  err_reading_file err_file_stats err_file_too_large err_buffer_error err_content_unavailable :
      LoadError

pub data Loaded : Type 0 where
  content_is : Text → Loaded
  failed : LoadError → Loaded

-- 10 MiB
abbrev pub max_file_size : ℕ
max_file_size = 10 * 1024 * 1024

-- a file that was opened: its size, if Stat gives it, and its bytes, if they can be read
pub record OpenFile : Type 0 where
  pub size : Option ℕ
  pub bytes : Option Text

module _ (body : Text → Option Text) (render : Text → Option Text) where
  -- the frontmatter is cut off, if there is one
  abbrev body_or_all : Text → Text
  body_or_all bytes = elim (body bytes) [ none ↦ bytes | some b ↦ b ]

  unfoldable pub load : Option OpenFile → Loaded
  load file = elim file [
    | none ↦ failed err_reading_file
    | some f ↦ elim f.size [
      | none ↦ failed err_file_stats
      | some size ↦ if ltb max_file_size size then failed err_file_too_large else elim f.bytes [
        | none ↦ failed err_buffer_error
        | some bytes ↦ elim (render (body_or_all bytes)) [
          | none ↦ failed err_content_unavailable
          | some html ↦ content_is html
        ]
      ]
    ]
  ]

  abbrev pub keep : Post → Loaded → Loaded × Post
  keep p (content_is html) = (content_is html, record p { content = some html })
  keep p (failed e) = (failed e, p)

  -- GetContentWithMetrics, and GetContent, which counts nothing
  unfoldable pub get_content : Option OpenFile → Post → Loaded × Post
  unfolding load
  get_content file p = elim p.content [
    | some html ↦ (content_is html, p)
    | none ↦ keep p (load file)
  ]
