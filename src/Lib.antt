-- ===== src/Lib.antt =====
-- fetchmail fetches mail from POP and IMAP servers and forwards it. Its sources stand in the
-- repository's root, and this library models the routines that work on the bytes of a message and
-- on the identifiers of messages, and those that read the answers of POP3, IMAP and SMTP servers, as
-- functions on lists of bytes, on records and on the list of the lines that are still to be read.
--
-- Parts, and how they interact:
-- * base64.c (Base64.antt): to64frombits and from64tobits. Used by the authentication code and by
--   the decoder of headers. Base64/Bits is about one group, Base64/RoundTrip, Base64/Bounds and
--   Base64/Length about whole strings.
-- * unmime.c (Unmime.antt): DoOneQPLine (Unmime/Quoted) decodes a line of a quoted-printable body,
--   UnMimeHeader (Unmime/Header) the encoded words of a header, through from64tobits and qp_char.
--   SetEncoding8bit, GetBoundary and CheckContentType (Unmime/ContentType) treat its fields.
--   MimeBodyType and UnMimeBodyline (Unmime/Body) put these together for a message: Unmime/Body/Kinds
--   is about the verdict on its headers, Unmime/Body/Plain about the lines of its body.
--   DoOneQPLine and UnMimeHeader write into their input buffer; the model returns the string that
--   stands there at the end.
-- * rfc2047e.c (Rfc2047e.antt): encode_words, the opposite of UnMimeHeader.
-- * rfc822valid.c (Rfc822Valid.antt): rfc822_valid_msgid, against the grammar in the comments of
--   that file (Rfc822Valid/Grammar).
-- * rfc822.c (Nxtaddr.antt): nxtaddr, which finds the addresses of a header, with its static
--   variables as a record that is passed on from call to call.
-- * uid_db.c and uid_db.h (UidDb.antt): the array of the records of a UID database, its index by
--   message number and its trie by identifier (UidDb/Trie). UidDb/Trie/Tree has the abstract trie,
--   UidDb/Trie/Heap says when it stands in the nodes, UidDb/Trie/Climb and its neighbours follow the
--   walks and the writes of pat_insert, and UidDb/Trie/Search has the invariant of a database.
--   UidDb/Release has free_uid_db, with the nodes and records that were released. uid.c
--   (Uid.antt) keeps two such databases per query, marks and counts their records by traverse_uid_db,
--   and swaps or empties them at the end of a query.
-- * idlist.c (IdList.antt): the lists of identifiers and of pairs of names.
-- * md5c.c and fm_md5.h (Md5.antt): MD5Init, MD5Update and MD5Final, against a digest that takes byte
--   after byte (Md5/Pieces) and against the blocks of the padded message (Md5/Padding), each of them
--   transformed as RFC 1321 has it (Md5/Rfc; Md5/Bits is about its functions, digit by digit).
--   md5ify.c (Md5/Hex) prints the digest.
-- * transact.c (Transact.antt): gen_send, gen_recv and gen_transact. What the server and the network do
--   is the record Io, the results of the calls of SockRead that are still to come.
-- * pop3.c (Pop3.antt): pop3_ok, parseuid, pop3_getuidl and pop3_gettopid; pop3_getsizes and
--   pop3_getpartialsizes (Pop3/Sizes); pop3_fastuidl (Pop3/Fast), which looks up and inserts
--   identifiers in the UID database of the query (Pop3/Fast/FirstUnseen is about where it ends);
--   the loop of pop3_getrange over the answer to UIDL
--   (Pop3/Uidl), which fills the new list and compares it with the old one; pop3_is_old,
--   pop3_delete, pop3_mark_seen and pop3_logout (Pop3/Marks), which Pop3/Marks/Delete follows from the
--   deletion to the end.
-- * imap.c (Imap.antt): imap_untagged_response, imap_response and imap_ok, imap_canonicalize,
--   internal_expunge (Imap/Expunge), and the numbers of an answer to SEARCH with imap_is_old
--   (Imap/Search). Imap/Counts, Imap/Tagged and Imap/Told are about the answers, Imap/SearchAnswer
--   about the numbers of SEARCH, Imap/Quoting about what a server
--   makes of a quoted password.
-- * smtp.c (Smtp.antt): SMTP_ok, against what a reply is (Smtp/Replies).
-- * Scan.antt has the routines of the C library that read and print numbers and find words.
-- * sdump.c (Sdump.antt): a printable form of a byte string.
-- * x509_name_match.c (NameMatch.antt): name_match, the check of a certificate's name.
-- Prelude and its modules hold the byte strings, the tests on numbers and the lemmas on lists;
-- Tests holds runs and instances.
--
-- Conventions: a C string is the list of its bytes before the NUL, and `peek` of the empty list is
-- the NUL. A buffer of a known length is the list of its bytes. `unsigned` is taken modulo 2 ^ 32.
-- A pointer into a string is the rest of the string, a pointer to a record its position. Characters
-- are classified as in the C locale.
--
-- Fuel: loops that move on by a varying number of bytes have fuel, and `none` is the end of it.
-- DoOneQPLine gets one more than the length of its line, UnMimeHeader one more than twice the length
-- of the header, since a round either eats a byte or ends the leading plain text; the theorems on
-- them state that a result is returned. The loops of rfc822_valid_msgid,
-- GetBoundary and MD5Update get the length of the string, that over the headers in MimeBodyType and
-- imap_ok one more than what there is to read. pop3_fastuidl gets the number of messages, since the
-- interval shrinks in every round. The walks in the trie get the number of its nodes, since each
-- node is a fork of the abstract trie, and the lists of records the number of the records; the loop
-- over the numbers of SEARCH gets the length of the text.
--
-- Bytes behind the end: UnMimeHeader may look one byte behind the NUL of its header, if the header
-- ends in `=` or `?`, and the model takes that byte for a NUL. nxtaddr may go on behind the NUL after
-- a backslash, which the model returns as `overrun`. A read outside the index by message number is
-- `none`, and so is a pointer of the trie that leads to no node, and a line behind whose tag imap.c
-- would read. In the loop over the answer to UIDL a write outside the index is `none`, and in
-- UidDb/Release so is a read of what was released.
--
-- Not modelled: the drivers' loop (driver.c) and its treatment of headers and bodies (transact.c),
-- the delivery (sink.c), the other protocols (pop2.c, etrn.c, odmr.c), of pop3.c the rest
-- of pop3_getrange and its search by Message-Id (pop3_slowuidl), of imap.c fetching, the range of
-- messages and searching by flags, of smtp.c all but SMTP_ok; the sockets, TLS and authentication mechanisms, the
-- configuration (rcfile_y.y, rcfile_l.l, conf.c, options.c), daemon mode and locking, logging, and
-- the libraries that are copied into the repository (trio, KAME, libesmtp, getopt, strlcpy, strlcat); reply_hack of
-- rfc822.c, the folding of rfc2047e.c and the file of identifiers of uid.c; allocation, the
-- release of memory elsewhere and reports.
mod Tests
pub mod Base64
pub mod IdList
pub mod Imap
pub mod Md5
pub mod NameMatch
pub mod Nxtaddr
pub mod Pop3
pub mod Prelude
pub mod Rfc2047e
pub mod Rfc822Valid
pub mod Scan
pub mod Sdump
pub mod Smtp
pub mod Transact
pub mod Uid
pub mod UidDb
pub mod Unmime
