-- ===== src/Ingestion/Columns.antt =====
-- The columns of packages/db/prisma/schema.prisma that an item of a page is written to: an Int has
-- 32 bits and a BigInt has 64, and the media of a content item have different ordinals.
use mirth_spool.Base.{ℕ, Bool, true, not, ◌&&◌, Option, none, some, List, [], ◌∷◌, leb, ◌==◌, any}
use mirth_spool.Base.Int.{ℤ, pos_part, neg_part}
use mirth_spool.Ingestion.Rows.{MediaInput, ContentInput}

fits_unsigned : ℕ → Option ℕ → Bool
fits_unsigned bound none = true
fits_unsigned bound (some n) = leb n bound

fits_signed : Option ℤ → Bool
fits_signed none = true
fits_signed (some n) = leb (pos_part n) 2147483647 && leb (neg_part n) 2147483648

fits_medium : MediaInput → Bool
unfolding fits_unsigned
fits_medium m =
    leb m.ordinal 2147483647
    && fits_unsigned 2147483647 m.width
    && fits_unsigned 2147483647 m.height
    && fits_unsigned 2147483647 m.duration_milliseconds
    && fits_unsigned 9223372036854775807 m.byte_length

-- @@unique([contentItemId, ordinal])
different_ordinals : List MediaInput → Bool
different_ordinals [] = true
different_ordinals (m ∷ ms) =
    not (any (λ (o : MediaInput). o.ordinal == m.ordinal) ms) && different_ordinals ms

-- The writes of the item do not throw.
unfoldable pub fits_columns : ContentInput → Bool
unfolding fits_unsigned fits_signed fits_medium different_ordinals
fits_columns item =
    fits_signed item.provider_score
    && fits_unsigned 2147483647 item.provider_comment_count
    && fits_unsigned 2147483647 item.provider_favourite_count
    && fits_unsigned 2147483647 item.provider_share_count
    && not (any (λ (m : MediaInput). not (fits_medium m)) item.media)
    && different_ordinals item.media
